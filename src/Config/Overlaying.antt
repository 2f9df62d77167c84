-- ===== src/Config/Overlaying.antt =====
-- upk_config.c: `upk_overlay_svcconf_values` and `upk_svc_desc_free` on descriptors whose texts are there.
use upkeeper.Prelude.{◌≡◌, refl, ◌∙◌, List, [], ◌∷◌, All}
use upkeeper.Wire.Outcome.{ok, bind, bind_then}
use upkeeper.Config.Desc.{Text, null, freed, held, CustAct, SvcDesc, free_text, free_actions}
use upkeeper.Config.Overlay.{
  overlay_long, overlay_freeing, overlay_script, copy_text, copy_actions, overlay_actions,
  overlay_svcconf_values,
}
use upkeeper.Config.Layers.{layer, layer_text, layer_actions}

-- NULL, or a text that is not freed.
abbrev pub IsIntact : Text → Type 0
IsIntact null = Unit
IsIntact freed = ⊥
IsIntact (held s) = Unit

-- NULL or empty, so that an overlay ignores it.
abbrev pub IsUnset : Text → Type 0
IsUnset null = Unit
IsUnset freed = ⊥
IsUnset (held []) = Unit
IsUnset (held (c ∷ cs)) = ⊥

-- No text of the descriptor is freed.
pub record IsWhole (d : SvcDesc) : Type 0 where
  pub long_description : IsIntact d.long_description
  pub start_script : IsIntact d.start_script
  pub stop_script : IsIntact d.stop_script
  pub reload_script : IsIntact d.reload_script
  pub custom_actions : All (λ a. IsIntact a.script) d.custom_actions
  pub pipe_stdout_script : IsIntact d.pipe_stdout_script
  pub pipe_stderr_script : IsIntact d.pipe_stderr_script

layer_text-IsIntact : (a b : Text) → IsIntact a → IsIntact b → IsIntact (layer_text a b)
layer_text-IsIntact a null h k = h
layer_text-IsIntact a freed h k = h
layer_text-IsIntact a (held []) h k = h
layer_text-IsIntact a (held (c ∷ cs)) h k = tt

layer_actions-IsIntact :
    (acts bs : List CustAct)
    → All (λ a. IsIntact a.script) acts
    → All (λ a. IsIntact a.script) bs
    → All (λ a. IsIntact a.script) (layer_actions acts bs)
layer_actions-IsIntact acts [] h k = h
layer_actions-IsIntact acts (b ∷ bs) h k = k

pub layer_text-IsUnset : (a b : Text) → IsUnset a → IsUnset b → IsUnset (layer_text a b)
layer_text-IsUnset a null h k = h
layer_text-IsUnset a freed h k = h
layer_text-IsUnset a (held []) h k = h
layer_text-IsUnset a (held (c ∷ cs)) h k = k

pub layer-IsWhole : (a b : SvcDesc) → IsWhole a → IsWhole b → IsWhole (layer a b)
layer-IsWhole a b h k = record {
  long_description = layer_text-IsIntact _ b.long_description h.long_description k.long_description;
  start_script = layer_text-IsIntact _ b.start_script h.start_script k.start_script;
  stop_script = layer_text-IsIntact _ b.stop_script h.stop_script k.stop_script;
  reload_script = layer_text-IsIntact _ b.reload_script h.reload_script k.reload_script;
  custom_actions = layer_actions-IsIntact _ b.custom_actions h.custom_actions k.custom_actions;
  pipe_stdout_script =
      layer_text-IsIntact _ b.pipe_stdout_script h.pipe_stdout_script k.pipe_stdout_script;
  pipe_stderr_script =
      layer_text-IsIntact _ b.pipe_stderr_script h.pipe_stderr_script k.pipe_stderr_script;
}

overlay_long-layer :
    (dest high : Text) → IsIntact high → overlay_long dest high ≡ ok (layer_text dest high)
unfolding overlay_long
overlay_long-layer dest null h = refl
overlay_long-layer dest freed h = absurd h
overlay_long-layer dest (held []) h = refl
overlay_long-layer dest (held (c ∷ cs)) h = refl

pub free_text-IsIntact : (t : Text) → IsIntact t → (u : Text) × (free_text t ≡ ok u)
unfolding free_text
free_text-IsIntact null h = (null, refl)
free_text-IsIntact freed h = absurd h
free_text-IsIntact (held s) h = (freed, refl)

overlay_script-layer :
    (dest high : Text)
    → IsIntact dest
    → IsIntact high
    → overlay_script dest high ≡ ok (layer_text dest high)
unfolding overlay_script overlay_freeing
overlay_script-layer dest null h k = refl
overlay_script-layer dest freed h k = absurd k
overlay_script-layer dest (held []) h k = refl
overlay_script-layer dest (held (c ∷ cs)) h k = rw (free_text-IsIntact dest h).1 refl

overlay_freeing-IsUnset :
    (dest old high : Text)
    → IsUnset high
    → overlay_freeing dest old high ≡ ok (layer_text dest high, old)
unfolding overlay_freeing
overlay_freeing-IsUnset dest old null h = refl
overlay_freeing-IsUnset dest old freed h = absurd h
overlay_freeing-IsUnset dest old (held []) h = refl
overlay_freeing-IsUnset dest old (held (c ∷ cs)) h = absurd h

pub free_actions-IsIntact :
    (acts : List CustAct) → All (λ a. IsIntact a.script) acts → free_actions acts ≡ ok []
unfolding free_actions
free_actions-IsIntact [] h = refl
free_actions-IsIntact (a ∷ acts) h =
    rw (free_text-IsIntact a.script h.0).1 (free_actions-IsIntact acts h.1)

copy_text-IsIntact : (t : Text) → IsIntact t → copy_text t ≡ ok t
unfolding copy_text
copy_text-IsIntact null h = refl
copy_text-IsIntact freed h = absurd h
copy_text-IsIntact (held s) h = refl

copy_actions-IsIntact :
    (acts : List CustAct) → All (λ a. IsIntact a.script) acts → copy_actions acts ≡ ok acts
unfolding copy_actions
copy_actions-IsIntact [] h = refl
copy_actions-IsIntact (a ∷ acts) h =
    bind_then _ (copy_text-IsIntact a.script h.0)
      (bind_then _ (copy_actions-IsIntact acts h.1) refl)

overlay_actions-layer :
    (dest high : List CustAct)
    → All (λ a. IsIntact a.script) dest
    → All (λ a. IsIntact a.script) high
    → overlay_actions dest high ≡ ok (layer_actions dest high)
unfolding overlay_actions
overlay_actions-layer dest [] h k = refl
overlay_actions-layer dest (a ∷ acts) h k =
    bind_then _ (free_actions-IsIntact dest h) (copy_actions-IsIntact (a ∷ acts) k)

-- All but the last overlay, of PipeStderrScript.
pub overlay-texts :
    (dest high : SvcDesc)
    → IsWhole dest
    → IsWhole high
    → overlay_svcconf_values dest high
      ≡ bind
          (overlay_freeing dest.pipe_stderr_script
            (layer_text dest.pipe_stdout_script high.pipe_stdout_script)
            high.pipe_stderr_script)
          (λ pipes. ok (record (layer dest high) {
            pipe_stdout_script = pipes.1;
            pipe_stderr_script = pipes.0;
          }))
unfolding overlay_svcconf_values
overlay-texts dest high h k =
    bind_then _ (overlay_long-layer dest.long_description _ k.long_description) (
      bind_then _ (overlay_script-layer _ high.start_script h.start_script k.start_script) (
        bind_then _ (overlay_script-layer _ high.stop_script h.stop_script k.stop_script) (
          bind_then _ (overlay_script-layer _ high.reload_script h.reload_script k.reload_script) (
            bind_then _
              (overlay_actions-layer _ high.custom_actions h.custom_actions k.custom_actions)
              (bind_then _
                (overlay_script-layer _ high.pipe_stdout_script h.pipe_stdout_script
                  k.pipe_stdout_script)
                refl)))))

pub overlay-layer :
    (dest high : SvcDesc)
    → IsWhole dest
    → IsWhole high
    → IsUnset high.pipe_stderr_script
    → overlay_svcconf_values dest high ≡ ok (layer dest high)
overlay-layer dest high h k u =
    overlay-texts dest high h k
    ∙ bind_then _ (overlay_freeing-IsUnset dest.pipe_stderr_script _ high.pipe_stderr_script u) refl
