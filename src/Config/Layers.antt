-- ===== src/Config/Layers.antt =====
-- upk_config.c: what an overlay of service descriptors is, and that overlays of overlays are.
use upkeeper.Prelude.{ℕ, zero, suc, ◌-◌, ◌≤◌, ◌<◌, ◌≡◌, refl, sym, arith, Bool}
use upkeeper.Prelude.{
  Bool-cases, inl, inr, List, [], ◌∷◌, append_assoc, append-nil, ◌==◌, if◌then◌else◌,
}
use upkeeper.Prelude.{length, take, take_long, length-take_at_most}
use upkeeper.Wire.Outcome.{max_string_len}
use upkeeper.Uuid.Fields.{Uuid}
use upkeeper.Config.Desc.{
  Text, null, freed, held, CustAct, SvcDesc, int32_min, int8_min, size_min, cleared,
}
use upkeeper.Config.Overlay.{
  overlay_number, overlay_array, overlay_uuid, is_set, overlay_plain, max_path_len,
}

-- A text of the higher layer where it has one that is not empty.
abbrev pub layer_text : Text → Text → Text
layer_text dest null = dest
layer_text dest freed = dest
layer_text dest (held []) = dest
layer_text dest (held (c ∷ cs)) = held (c ∷ cs)

abbrev pub layer_actions : List CustAct → List CustAct → List CustAct
layer_actions dest [] = dest
layer_actions dest (a ∷ acts) = a ∷ acts

-- Every member of the higher layer that is set, and otherwise that of the lower one; lists are svcid_of,
-- but for custom actions.
abbrev pub layer : SvcDesc → SvcDesc → SvcDesc
layer dest high = record (overlay_plain dest high) {
  long_description = layer_text dest.long_description high.long_description;
  start_script = layer_text dest.start_script high.start_script;
  stop_script = layer_text dest.stop_script high.stop_script;
  reload_script = layer_text dest.reload_script high.reload_script;
  custom_actions = layer_actions dest.custom_actions high.custom_actions;
  pipe_stdout_script = layer_text dest.pipe_stdout_script high.pipe_stdout_script;
  pipe_stderr_script = layer_text dest.pipe_stderr_script high.pipe_stderr_script;
}

choose_assoc :
    {A : Type 0} (s : A → Bool) (a b c : A)
    → (if s c then c else (if s b then b else a))
      ≡ (if s (if s c then c else b) then (if s c then c else b) else a)
choose_assoc s a b c = elim (Bool-cases (s c)) [ inl e ↦ rw (e, e) refl | inr e ↦ rw e refl ]

overlay_number_assoc :
    (u a b c : ℕ)
    → overlay_number u (overlay_number u a b) c ≡ overlay_number u a (overlay_number u b c)
unfolding overlay_number
overlay_number_assoc u a b c = elim (Bool-cases (c == u)) [
  | inl e ↦ rw e refl
  | inr e ↦ rw (e, e) refl
]

overlay_uuid_assoc :
    (a b c : Uuid) → overlay_uuid (overlay_uuid a b) c ≡ overlay_uuid a (overlay_uuid b c)
unfolding overlay_uuid
overlay_uuid_assoc a b c = choose_assoc is_set a b c

pub take_cons :
    (n c : ℕ) (cs : List ℕ)
    → 0 < n
    → (ds : List ℕ) × (take n (c ∷ cs) ≡ c ∷ ds) × (length (c ∷ ds) ≤ n)
take_cons zero c cs h = absurd (omega arith)
take_cons (suc n) c cs h = (take n cs, refl, omega (arith, length-take_at_most n cs))

overlay_array_assoc :
    (n : ℕ) (a b c : List ℕ)
    → 1 < n
    → overlay_array n (overlay_array n a b) c ≡ overlay_array n a (overlay_array n b c)
unfolding overlay_array
overlay_array_assoc n a b [] h = refl
overlay_array_assoc n a b (c ∷ cs) h =
    let (ds, e, k) = take_cons (n - 1) c cs (omega arith) in
    rw e (sym (take_long (n - 1) (c ∷ ds) k))

layer_text_assoc : (a b c : Text) → layer_text (layer_text a b) c ≡ layer_text a (layer_text b c)
layer_text_assoc a b null = refl
layer_text_assoc a b freed = refl
layer_text_assoc a b (held []) = refl
layer_text_assoc a b (held (c ∷ cs)) = refl

layer_actions_assoc :
    (a b c : List CustAct)
    → layer_actions (layer_actions a b) c ≡ layer_actions a (layer_actions b c)
layer_actions_assoc a b [] = refl
layer_actions_assoc a b (c ∷ cs) = refl

pub layer_assoc : (a b c : SvcDesc) → layer (layer a b) c ≡ layer a (layer b c)
unfolding overlay_plain
layer_assoc a b c = λ i. record {
  start_priority =
      overlay_number_assoc int32_min a.start_priority b.start_priority c.start_priority i;
  name = overlay_array_assoc max_string_len a.name b.name c.name (omega arith) i;
  package_name =
      overlay_array_assoc max_string_len a.package_name b.package_name c.package_name (omega arith)
        i;
  provides = append_assoc a.provides b.provides c.provides i;
  uuid = overlay_uuid_assoc a.uuid b.uuid c.uuid i;
  short_description =
      overlay_array_assoc max_string_len a.short_description b.short_description c.short_description
        (omega arith) i;
  long_description = layer_text_assoc a.long_description b.long_description c.long_description i;
  prerequisites = append_assoc a.prerequisites b.prerequisites c.prerequisites i;
  kill_timeout = overlay_number_assoc int32_min a.kill_timeout b.kill_timeout c.kill_timeout i;
  max_consecutive_failures =
      overlay_number_assoc int32_min a.max_consecutive_failures b.max_consecutive_failures
        c.max_consecutive_failures i;
  user_max_restarts =
      overlay_number_assoc int32_min a.user_max_restarts b.user_max_restarts c.user_max_restarts i;
  user_restart_window =
      overlay_number_assoc int32_min a.user_restart_window b.user_restart_window
        c.user_restart_window i;
  user_rate_limit =
      overlay_number_assoc int32_min a.user_rate_limit b.user_rate_limit c.user_rate_limit i;
  randomize_rate_limit =
      overlay_number_assoc int8_min a.randomize_rate_limit b.randomize_rate_limit
        c.randomize_rate_limit i;
  set_uid = overlay_number_assoc int32_min a.set_uid b.set_uid c.set_uid i;
  set_gid = overlay_number_assoc int32_min a.set_gid b.set_gid c.set_gid i;
  ringbuffer_size =
      overlay_number_assoc size_min a.ringbuffer_size b.ringbuffer_size c.ringbuffer_size i;
  reconnect_retries =
      overlay_number_assoc int32_min a.reconnect_retries b.reconnect_retries c.reconnect_retries i;
  exec_start =
      overlay_array_assoc max_path_len a.exec_start b.exec_start c.exec_start (omega arith) i;
  start_script = layer_text_assoc a.start_script b.start_script c.start_script i;
  exec_stop = overlay_array_assoc max_path_len a.exec_stop b.exec_stop c.exec_stop (omega arith) i;
  stop_script = layer_text_assoc a.stop_script b.stop_script c.stop_script i;
  exec_reload =
      overlay_array_assoc max_path_len a.exec_reload b.exec_reload c.exec_reload (omega arith) i;
  reload_script = layer_text_assoc a.reload_script b.reload_script c.reload_script i;
  custom_actions = layer_actions_assoc a.custom_actions b.custom_actions c.custom_actions i;
  pipe_stdout_script =
      layer_text_assoc a.pipe_stdout_script b.pipe_stdout_script c.pipe_stdout_script i;
  pipe_stderr_script =
      layer_text_assoc a.pipe_stderr_script b.pipe_stderr_script c.pipe_stderr_script i;
  redirect_stdout =
      overlay_array_assoc max_path_len a.redirect_stdout b.redirect_stdout c.redirect_stdout
        (omega arith) i;
  redirect_stderr =
      overlay_array_assoc max_path_len a.redirect_stderr b.redirect_stderr c.redirect_stderr
        (omega arith) i;
  initial_state = overlay_number_assoc 0 a.initial_state b.initial_state c.initial_state i;
  unconfigure_on_file_removal =
      overlay_number_assoc int8_min a.unconfigure_on_file_removal b.unconfigure_on_file_removal
        c.unconfigure_on_file_removal i;
  prefer_buddy_state_for_stopped =
      overlay_number_assoc int8_min a.prefer_buddy_state_for_stopped
        b.prefer_buddy_state_for_stopped c.prefer_buddy_state_for_stopped i;
  prefer_buddy_state_for_running =
      overlay_number_assoc int8_min a.prefer_buddy_state_for_running
        b.prefer_buddy_state_for_running c.prefer_buddy_state_for_running i;
}

pub layer-cleared : (d : SvcDesc) → layer d cleared ≡ d
unfolding overlay_plain overlay_number overlay_array overlay_uuid is_set
layer-cleared d = λ i. record {
  start_priority = d.start_priority;
  name = d.name;
  package_name = d.package_name;
  provides = append-nil d.provides i;
  uuid = d.uuid;
  short_description = d.short_description;
  long_description = d.long_description;
  prerequisites = append-nil d.prerequisites i;
  kill_timeout = d.kill_timeout;
  max_consecutive_failures = d.max_consecutive_failures;
  user_max_restarts = d.user_max_restarts;
  user_restart_window = d.user_restart_window;
  user_rate_limit = d.user_rate_limit;
  randomize_rate_limit = d.randomize_rate_limit;
  set_uid = d.set_uid;
  set_gid = d.set_gid;
  ringbuffer_size = d.ringbuffer_size;
  reconnect_retries = d.reconnect_retries;
  exec_start = d.exec_start;
  start_script = d.start_script;
  exec_stop = d.exec_stop;
  stop_script = d.stop_script;
  exec_reload = d.exec_reload;
  reload_script = d.reload_script;
  custom_actions = d.custom_actions;
  pipe_stdout_script = d.pipe_stdout_script;
  pipe_stderr_script = d.pipe_stderr_script;
  redirect_stdout = d.redirect_stdout;
  redirect_stderr = d.redirect_stderr;
  initial_state = d.initial_state;
  unconfigure_on_file_removal = d.unconfigure_on_file_removal;
  prefer_buddy_state_for_stopped = d.prefer_buddy_state_for_stopped;
  prefer_buddy_state_for_running = d.prefer_buddy_state_for_running;
}
