-- ===== src/Config/Merging.antt =====
-- upk_config.c: overlays one after the other, the overlay of PipeStderrScript, and how a descriptor is
-- freed.
use upkeeper.Prelude.{ℕ, ◌≡◌, refl, ap, ◌∙◌, List, ◌∷◌}
use upkeeper.Wire.Outcome.{ok, fault, dangling, bind_then}
use upkeeper.Config.Desc.{
  Text, null, freed, held, SvcDesc, cleared, free_text, svc_desc_free, svc_desc_clear,
}
use upkeeper.Config.Overlay.{overlay_freeing, overlay_svcconf_values}
use upkeeper.Config.Layers.{layer, layer_text, layer-cleared}
use upkeeper.Config.Overlaying.{
  IsWhole, layer-IsWhole, overlay-texts, overlay-layer, free_text-IsIntact, free_actions-IsIntact,
}

pub cleared-IsWhole : IsWhole cleared
cleared-IsWhole = record {
  long_description = tt;
  start_script = tt;
  stop_script = tt;
  reload_script = tt;
  custom_actions = tt;
  pipe_stdout_script = tt;
  pipe_stderr_script = tt;
}

-- An overlay by a descriptor that was cleared changes no member of one whose texts are not freed.
pub overlay_svcconf_values-svc_desc_clear :
    (d high : SvcDesc) → IsWhole d → overlay_svcconf_values d (svc_desc_clear high) ≡ ok d
unfolding svc_desc_clear
overlay_svcconf_values-svc_desc_clear d high h =
    overlay-layer d cleared h cleared-IsWhole tt ∙ ap ok (layer-cleared d)

-- If the higher descriptor sets PipeStderrScript, and either one sets PipeStdoutScript, no text of both
-- being freed, the overlay leaves PipeStdoutScript pointing to freed memory, and to free the descriptor is
-- then a fault.
pub overlay_svcconf_values-dangling :
    (dest high : SvcDesc) (c : ℕ) (cs out : List ℕ)
    → IsWhole dest
    → IsWhole high
    → high.pipe_stderr_script ≡ held (c ∷ cs)
    → layer_text dest.pipe_stdout_script high.pipe_stdout_script ≡ held out
    → (d : SvcDesc) × (overlay_svcconf_values dest high ≡ ok d)
      × (d.pipe_stdout_script ≡ freed)
      × (svc_desc_free d ≡ fault dangling)
unfolding overlay_freeing free_text svc_desc_free
overlay_svcconf_values-dangling dest high c cs out h k p q =
    let whole = layer-IsWhole dest high h k in
    let d : SvcDesc = record (layer dest high) {
      pipe_stdout_script = freed;
      pipe_stderr_script = held (c ∷ cs);
    } in
    (
      d,
      overlay-texts dest high h k ∙ bind_then _ (freeing dest.pipe_stderr_script p q) refl,
      refl,
      bind_then _ (free_text-IsIntact d.long_description whole.long_description).1 (
          bind_then _ (free_text-IsIntact d.start_script whole.start_script).1 (
            bind_then _ (free_text-IsIntact d.stop_script whole.stop_script).1 (
              bind_then _ (free_text-IsIntact d.reload_script whole.reload_script).1
                (bind_then _ (free_actions-IsIntact d.custom_actions whole.custom_actions) refl)))),
    )
  where
    freeing :
        (t : Text) {u v : Text} {c : ℕ} {cs out : List ℕ}
        → u ≡ held (c ∷ cs)
        → v ≡ held out
        → overlay_freeing t v u ≡ ok (held (c ∷ cs), freed)
    freeing t p q = rw (p, q) refl

-- What `free` leaves of a pointer that is not NULL.
abbrev pub gone : Text → Text
gone null = null
gone freed = freed
gone (held s) = freed
