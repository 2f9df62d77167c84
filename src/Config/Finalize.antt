-- ===== src/Config/Finalize.antt =====
-- upk_config.c: `upk_finalize_svc_desc`, which puts the layers of a service together and enters its
-- commands in its scripts.
use upkeeper.Prelude.{ℕ, ◌≡◌, ◌≢◌, ◌+◌, ◌<◌, ◌^◌, refl, ap, Option, none, some, List, [], ◌∷◌, ◌++◌}
use upkeeper.Prelude.{true, ◌==◌, if◌then◌else◌, length}
use upkeeper.Wire.Outcome.{Outcome, ok, fault, dangling, bind, bind_then}
use upkeeper.Util.Replace.{replace_string}
use upkeeper.Util.Substitute.{
  substituted, replace_string-substituted, no_zeros, no_zeros-substituted, no_zeros-cons,
}
use upkeeper.Config.Desc.{Text, null, freed, held, SvcDesc}
use upkeeper.Config.Overlay.{overlay_svcconf_values}
use upkeeper.Config.Layers.{layer}
use upkeeper.Config.Overlaying.{IsIntact, IsWhole, IsUnset, layer-IsWhole, overlay-layer}

-- The text in memory, up to the terminator
unfoldable pub c_string : List ℕ → List ℕ
c_string [] = []
c_string (c ∷ cs) = let rest = c_string cs in if c == 0 then [] else c ∷ rest

-- `%(EXEC_START)`, `%(EXEC_STOP)` and `%(EXEC_RELOAD)`
abbrev pub exec_start_mark : List ℕ
exec_start_mark =
    0x25 ∷ 0x28 ∷ 0x45 ∷ 0x58 ∷ 0x45 ∷ 0x43 ∷ 0x5F ∷ 0x53 ∷ 0x54 ∷ 0x41 ∷ 0x52 ∷ 0x54 ∷ 0x29 ∷ []

abbrev pub exec_stop_mark : List ℕ
exec_stop_mark =
    0x25 ∷ 0x28 ∷ 0x45 ∷ 0x58 ∷ 0x45 ∷ 0x43 ∷ 0x5F ∷ 0x53 ∷ 0x54 ∷ 0x4F ∷ 0x50 ∷ 0x29 ∷ []

abbrev pub exec_reload_mark : List ℕ
exec_reload_mark =
    0x25 ∷ 0x28 ∷ 0x45 ∷ 0x58 ∷ 0x45 ∷ 0x43 ∷ 0x5F ∷ 0x52 ∷ 0x45 ∷ 0x4C ∷ 0x4F ∷ 0x41 ∷ 0x44 ∷ 0x29
    ∷ []

c_string-no_zeros : (xs : List ℕ) → no_zeros xs ≡ true → c_string (xs ++ (0 ∷ [])) ≡ xs
unfolding c_string
c_string-no_zeros [] h = refl
c_string-no_zeros (x ∷ xs) h =
    let (z, t) = no_zeros-cons x xs h in rw z (ap (λ (t : List ℕ). x ∷ t) (c_string-no_zeros xs t))

-- A script with the command in the place of its first mark, if it has one.
abbrev pub with_command : List ℕ → List ℕ → Text → Text
with_command mark command null = null
with_command mark command freed = freed
with_command mark command (held s) = held (substituted mark command s)

-- The bytes of a text.
abbrev pub bytes_of : Text → List ℕ
bytes_of null = []
bytes_of freed = []
bytes_of (held s) = s

-- A command that can be entered for a mark in a script: no zeros, and it has not just one byte less than
-- the mark.
pub record Enters (mark command : List ℕ) (script : Text) : Type 0 where
  pub intact : IsIntact script
  pub script_text : no_zeros (bytes_of script) ≡ true
  pub command_text : no_zeros command ≡ true
  pub small : length (bytes_of script) + length command < 2 ^ 63
  pub length_differs : length command + 1 ≢ length mark

-- The defaults over `dest`, and the service's own values over both.
abbrev pub layered : SvcDesc → SvcDesc → Option SvcDesc → SvcDesc
layered defaults dest none = layer dest defaults
layered defaults dest (some orig) = layer (layer dest defaults) orig

-- What is asked of the service's own values, if there are any.
abbrev pub IsReady : Option SvcDesc → Type 0
IsReady none = Unit
IsReady (some orig) = IsWhole orig × IsUnset orig.pipe_stderr_script

module _ (junk : ℕ) where
  -- `if(script) upk_replace_string(&script, mark, command)`
  unfoldable pub entered : Text → List ℕ → List ℕ → Outcome Text
  unfolding replace_string c_string
  entered null mark command = ok null
  entered freed mark command = fault dangling
  entered (held s) mark command =
      bind (replace_string junk s mark command) λ b. ok (held (c_string b))

  -- `if(orig)`
  abbrev pub overlay_orig : SvcDesc → Option SvcDesc → Outcome SvcDesc
  overlay_orig dest none = ok dest
  overlay_orig dest (some orig) = overlay_svcconf_values dest orig

  unfoldable pub finalize_svc_desc : SvcDesc → SvcDesc → Option SvcDesc → Outcome SvcDesc
  unfolding entered overlay_svcconf_values
  finalize_svc_desc service_defaults dest orig =
      bind (overlay_svcconf_values dest service_defaults) λ low. bind (overlay_orig low orig) λ d.
        bind (entered d.start_script exec_start_mark d.exec_start) λ start.
          bind (entered d.stop_script exec_stop_mark d.exec_stop) λ stop.
            bind (entered d.reload_script exec_reload_mark d.exec_reload) λ reload.
              ok (record d { start_script = start; stop_script = stop; reload_script = reload })

  entered_lem :
      (mark command : List ℕ) (script : Text)
      → Enters mark command script
      → entered script mark command ≡ ok (with_command mark command script)
  unfolding entered
  entered_lem mark command null h = refl
  entered_lem mark command freed h = absurd h.intact
  entered_lem mark command (held s) h =
      bind_then _ (replace_string-substituted junk s mark command h.small h.length_differs) (
        ap (λ (t : List ℕ). ok (held t))
          (c_string-no_zeros (substituted mark command s)
            (no_zeros-substituted mark command s h.command_text h.script_text)))

  overlay_orig-layered :
      (defaults dest : SvcDesc) (orig : Option SvcDesc)
      → IsWhole dest
      → IsWhole defaults
      → IsReady orig
      → overlay_orig (layer dest defaults) orig ≡ ok (layered defaults dest orig)
  overlay_orig-layered defaults dest none h k r = refl
  overlay_orig-layered defaults dest (some orig) h k r =
      overlay-layer (layer dest defaults) orig (layer-IsWhole dest defaults h k) r.0 r.1

  -- The service is what it was, with the defaults and then its own values laid over it, if none of their
  -- texts is freed and neither sets PipeStderrScript. In each of its three scripts the command stands in
  -- the place of the first mark, if the script has one, for scripts and commands without zeros and with
  -- fewer than 2 ^ 63 bytes, where no command has just one byte less than its mark.
  pub finalize_svc_desc_lem :
      (defaults dest : SvcDesc) (orig : Option SvcDesc)
      → IsWhole dest
      → IsWhole defaults
      → IsUnset defaults.pipe_stderr_script
      → IsReady orig
      → (let d = layered defaults dest orig in
          Enters exec_start_mark d.exec_start d.start_script
          × Enters exec_stop_mark d.exec_stop d.stop_script
          × Enters exec_reload_mark d.exec_reload d.reload_script)
      → (let d = layered defaults dest orig in
          finalize_svc_desc defaults dest orig
          ≡ ok (record d {
            start_script = with_command exec_start_mark d.exec_start d.start_script;
            stop_script = with_command exec_stop_mark d.exec_stop d.stop_script;
            reload_script = with_command exec_reload_mark d.exec_reload d.reload_script;
          }))
  unfolding finalize_svc_desc entered
  finalize_svc_desc_lem defaults dest orig h k u r (start, stop, reload) =
      let d : SvcDesc = layered defaults dest orig in
      bind_then _ (overlay-layer dest defaults h k u) (
        bind_then _ (overlay_orig-layered defaults dest orig h k r) (
          bind_then _ (entered_lem exec_start_mark d.exec_start d.start_script start) (
            bind_then _ (entered_lem exec_stop_mark d.exec_stop d.stop_script stop) (
              bind_then _ (entered_lem exec_reload_mark d.exec_reload d.reload_script reload)
                refl))))
