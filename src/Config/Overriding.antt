-- ===== src/Config/Overriding.antt =====
-- upk_config.c: an overlay of service descriptors, as one map of settings laid over another.
use upkeeper.Prelude.{
  ℕ, ◌-◌, ◌<◌, ◌≡◌, refl, sym, ap, ◌∙◌, arith, Bool, true, false, Option, none, some, Bool-cases,
  inl, inr, List, [], ◌∷◌, ◌++◌, ◌==◌, if◌then◌else◌, take_long, append_assoc,
}
use upkeeper.Wire.Outcome.{ok, bind, bind_then, max_string_len}
use upkeeper.Uuid.Fields.{Uuid}
use upkeeper.Config.Desc.{Text, null, freed, held, CustAct, SvcDesc, int32_min, int8_min, size_min}
use upkeeper.Config.Overlay.{
  overlay_number, overlay_array, overlay_uuid, is_set, overlay_plain, overlay_svcconf_values,
  max_path_len,
}
use upkeeper.Config.Layers.{layer, layer_text, layer_actions, layer_assoc, take_cons}
use upkeeper.Config.Overlaying.{IsUnset, IsWhole, layer-IsWhole, layer_text-IsUnset, overlay-layer}
use upkeeper.Config.Settings.{
  text, identifier, Member, number_setting, array_setting, text_setting, actions_setting, setting,
}

-- The first of two that is there.
abbrev pub or_else {ℓ} : {A : Type ℓ} → Option A → Option A → Option A
or_else none b = b
or_else (some a) b = some a

number_setting-overlay :
    (u a b : ℕ)
    → number_setting u (overlay_number u a b) ≡ or_else (number_setting u b) (number_setting u a)
unfolding number_setting overlay_number
number_setting-overlay u a b = elim (Bool-cases (b == u)) [
  | inl e ↦ rw e refl
  | inr e ↦ rw (e, e) refl
]

array_setting-overlay :
    (n : ℕ) (a b : List ℕ)
    → 1 < n
    → array_setting n (overlay_array n a b) ≡ or_else (array_setting n b) (array_setting n a)
unfolding array_setting overlay_array
array_setting-overlay n a [] h = refl
array_setting-overlay n a (c ∷ cs) h =
    let (ds, e, k) = take_cons (n - 1) c cs (omega arith) in
    rw e (ap (λ (t : List ℕ). some (text t)) (take_long (n - 1) (c ∷ ds) k))

text_setting-layer :
    (a b : Text) → text_setting (layer_text a b) ≡ or_else (text_setting b) (text_setting a)
unfolding text_setting
text_setting-layer a null = refl
text_setting-layer a freed = refl
text_setting-layer a (held []) = refl
text_setting-layer a (held (c ∷ cs)) = refl

chosen :
    (s : Uuid → Bool) (a b : Uuid)
    → (if s (if s b then b else a) then some (identifier (if s b then b else a)) else none)
      ≡ or_else
          (if s b then some (identifier b) else none)
          (if s a then some (identifier a) else none)
chosen s a b = by_test (s b) refl
  where
    by_test :
        (t : Bool)
        → s b ≡ t
        → (if s (if t then b else a) then some (identifier (if t then b else a)) else none)
          ≡ or_else
              (if t then some (identifier b) else none)
              (if s a then some (identifier a) else none)
    by_test true e = ap (λ (t : Bool). if t then some (identifier b) else none) e
    by_test false e = refl

actions_setting-layer :
    (a b : List CustAct)
    → actions_setting (layer_actions a b) ≡ or_else (actions_setting b) (actions_setting a)
unfolding actions_setting
actions_setting-layer a [] = refl
actions_setting-layer a (b ∷ bs) = refl

setting-layer :
    (a b : SvcDesc) (m : Member) → setting (layer a b) m ≡ or_else (setting b m) (setting a m)
unfolding setting overlay_plain overlay_uuid
setting-layer a b Member.start_priority =
    number_setting-overlay int32_min a.start_priority b.start_priority
setting-layer a b Member.kill_timeout =
    number_setting-overlay int32_min a.kill_timeout b.kill_timeout
setting-layer a b Member.max_consecutive_failures =
    number_setting-overlay int32_min a.max_consecutive_failures b.max_consecutive_failures
setting-layer a b Member.user_max_restarts =
    number_setting-overlay int32_min a.user_max_restarts b.user_max_restarts
setting-layer a b Member.user_restart_window =
    number_setting-overlay int32_min a.user_restart_window b.user_restart_window
setting-layer a b Member.user_rate_limit =
    number_setting-overlay int32_min a.user_rate_limit b.user_rate_limit
setting-layer a b Member.randomize_rate_limit =
    number_setting-overlay int8_min a.randomize_rate_limit b.randomize_rate_limit
setting-layer a b Member.set_uid = number_setting-overlay int32_min a.set_uid b.set_uid
setting-layer a b Member.set_gid = number_setting-overlay int32_min a.set_gid b.set_gid
setting-layer a b Member.ringbuffer_size =
    number_setting-overlay size_min a.ringbuffer_size b.ringbuffer_size
setting-layer a b Member.reconnect_retries =
    number_setting-overlay int32_min a.reconnect_retries b.reconnect_retries
setting-layer a b Member.initial_state = number_setting-overlay 0 a.initial_state b.initial_state
setting-layer a b Member.unconfigure_on_file_removal =
    number_setting-overlay int8_min a.unconfigure_on_file_removal b.unconfigure_on_file_removal
setting-layer a b Member.prefer_buddy_state_for_stopped =
    number_setting-overlay int8_min a.prefer_buddy_state_for_stopped
      b.prefer_buddy_state_for_stopped
setting-layer a b Member.prefer_buddy_state_for_running =
    number_setting-overlay int8_min a.prefer_buddy_state_for_running
      b.prefer_buddy_state_for_running
setting-layer a b Member.name = array_setting-overlay max_string_len a.name b.name (omega arith)
setting-layer a b Member.package_name =
    array_setting-overlay max_string_len a.package_name b.package_name (omega arith)
setting-layer a b Member.short_description =
    array_setting-overlay max_string_len a.short_description b.short_description (omega arith)
setting-layer a b Member.exec_start =
    array_setting-overlay max_path_len a.exec_start b.exec_start (omega arith)
setting-layer a b Member.exec_stop =
    array_setting-overlay max_path_len a.exec_stop b.exec_stop (omega arith)
setting-layer a b Member.exec_reload =
    array_setting-overlay max_path_len a.exec_reload b.exec_reload (omega arith)
setting-layer a b Member.redirect_stdout =
    array_setting-overlay max_path_len a.redirect_stdout b.redirect_stdout (omega arith)
setting-layer a b Member.redirect_stderr =
    array_setting-overlay max_path_len a.redirect_stderr b.redirect_stderr (omega arith)
setting-layer a b Member.long_description = text_setting-layer a.long_description b.long_description
setting-layer a b Member.start_script = text_setting-layer a.start_script b.start_script
setting-layer a b Member.stop_script = text_setting-layer a.stop_script b.stop_script
setting-layer a b Member.reload_script = text_setting-layer a.reload_script b.reload_script
setting-layer a b Member.pipe_stdout_script =
    text_setting-layer a.pipe_stdout_script b.pipe_stdout_script
setting-layer a b Member.pipe_stderr_script =
    text_setting-layer a.pipe_stderr_script b.pipe_stderr_script
setting-layer a b Member.uuid = chosen is_set a.uuid b.uuid
setting-layer a b Member.custom_actions = actions_setting-layer a.custom_actions b.custom_actions

-- Of three descriptors none of whose texts is freed and of which the upper two do not set
-- PipeStderrScript, the overlays return the same descriptor whether the lower two or the upper two are
-- put together first. In it every member is as the highest of the three has it that sets it, and unset if
-- none does; the lists of what a service provides and of its prerequisites are appended, the lowest
-- first.
pub overlay_svcconf_values-setting :
    (a b c : SvcDesc)
    → IsWhole a
    → IsWhole b
    → IsWhole c
    → IsUnset b.pipe_stderr_script
    → IsUnset c.pipe_stderr_script
    → (d : SvcDesc) × (bind (overlay_svcconf_values a b) (λ low. overlay_svcconf_values low c)
        ≡ ok d)
      × (bind (overlay_svcconf_values b c) (λ high. overlay_svcconf_values a high) ≡ ok d)
      × ((m : Member) → setting d m ≡ or_else (setting c m) (or_else (setting b m) (setting a m)))
      × (d.provides ≡ a.provides ++ (b.provides ++ c.provides))
      × (d.prerequisites ≡ a.prerequisites ++ (b.prerequisites ++ c.prerequisites))
unfolding overlay_plain
overlay_svcconf_values-setting a b c h k l u v = (
  layer (layer a b) c,
  bind_then _ (overlay-layer a b h k u) (overlay-layer (layer a b) c (layer-IsWhole a b h k) l v),
  bind_then _ (overlay-layer b c k l v) (
      overlay-layer a (layer b c) h (layer-IsWhole b c k l)
        (layer_text-IsUnset b.pipe_stderr_script c.pipe_stderr_script u v)
      ∙ ap ok (sym (layer_assoc a b c))),
  λ m. setting-layer (layer a b) c m ∙ ap (or_else (setting c m)) (setting-layer a b m),
  append_assoc a.provides b.provides c.provides,
  append_assoc a.prerequisites b.prerequisites c.prerequisites,
)
