-- ===== src/Config/Overlay.antt =====
-- upk_config.c: to overlay the values of one service descriptor by those of another, which is another
-- object.
use upkeeper.Prelude.{ℕ, ◌-◌, Bool, ◌||◌, List, [], ◌∷◌, ◌++◌}
use upkeeper.Prelude.{◌==◌, if◌then◌else◌, take, not}
use upkeeper.Wire.Outcome.{Outcome, ok, fault, dangling, bind, max_string_len}
use upkeeper.Uuid.Fields.{Uuid}
use upkeeper.Config.Desc.{
  Text, null, freed, held, CustAct, SvcDesc, int32_min, int8_min, size_min, free_text, free_actions,
}

-- UPK_MAX_PATH_LEN
abbrev pub max_path_len : ℕ
max_path_len = 8192

-- `if(high != unset) dest = high`
unfoldable pub overlay_number : ℕ → ℕ → ℕ → ℕ
overlay_number unset dest high = if high == unset then dest else high

-- `if(strlen(high) > 0)`, and a `strncpy` to the zeroed array of `n` bytes
unfoldable pub overlay_array : ℕ → List ℕ → List ℕ → List ℕ
overlay_array n dest [] = dest
overlay_array n dest (c ∷ cs) = take (n - 1) (c ∷ cs)

unfoldable pub is_set : Uuid → Bool
is_set u =
    let (a, b, c, d, e, f) = u.node in
    not (u.time_low == 0)
    || (not (u.time_mid == 0)
        || (not (u.time_high_and_version == 0)
            || (not (u.clk_seq_high == 0)
                || (not (u.clk_seq_low == 0)
                    || (not (a == 0)
                        || (not (b == 0)
                            || (not (c == 0)
                                || (not (d == 0) || (not (e == 0) || not (f == 0))))))))))

unfoldable pub overlay_uuid : Uuid → Uuid → Uuid
unfolding is_set
overlay_uuid dest high = if is_set high then high else dest

-- A text that is read.
unfoldable pub overlay_long : Text → Text → Outcome Text
overlay_long dest null = ok dest
overlay_long dest freed = fault dangling
overlay_long dest (held []) = ok dest
overlay_long dest (held (c ∷ cs)) = ok (held (c ∷ cs))

-- The same where the text that was there is freed, the second pointer.
unfoldable pub overlay_freeing : Text → Text → Text → Outcome (Text × Text)
unfolding free_text
overlay_freeing dest old null = ok (dest, old)
overlay_freeing dest old freed = fault dangling
overlay_freeing dest old (held []) = ok (dest, old)
overlay_freeing dest old (held (c ∷ cs)) = bind (free_text old) λ gone. ok (held (c ∷ cs), gone)

unfoldable pub overlay_script : Text → Text → Outcome Text
unfolding overlay_freeing
overlay_script dest high = bind (overlay_freeing dest dest high) λ r. ok r.0

-- A copy of a script.
unfoldable pub copy_text : Text → Outcome Text
copy_text null = ok null
copy_text freed = fault dangling
copy_text (held s) = ok (held s)

unfoldable pub copy_actions : List CustAct → Outcome (List CustAct)
unfolding copy_text
copy_actions [] = ok []
copy_actions (a ∷ acts) =
    bind (copy_text a.script)
      λ s. bind (copy_actions acts) λ rest. ok (record a { script = s } ∷ rest)

unfoldable pub overlay_actions : List CustAct → List CustAct → Outcome (List CustAct)
unfolding free_actions copy_actions
overlay_actions dest [] = ok dest
overlay_actions dest (a ∷ acts) = bind (free_actions dest) λ none. copy_actions (a ∷ acts)

-- The members that are no texts on the heap.
unfoldable pub overlay_plain : SvcDesc → SvcDesc → SvcDesc
unfolding overlay_number overlay_array overlay_uuid
overlay_plain dest high = record dest {
  start_priority = overlay_number int32_min dest.start_priority high.start_priority;
  name = overlay_array max_string_len dest.name high.name;
  package_name = overlay_array max_string_len dest.package_name high.package_name;
  provides = dest.provides ++ high.provides;
  uuid = overlay_uuid dest.uuid high.uuid;
  short_description = overlay_array max_string_len dest.short_description high.short_description;
  prerequisites = dest.prerequisites ++ high.prerequisites;
  kill_timeout = overlay_number int32_min dest.kill_timeout high.kill_timeout;
  max_consecutive_failures =
      overlay_number int32_min dest.max_consecutive_failures high.max_consecutive_failures;
  user_max_restarts = overlay_number int32_min dest.user_max_restarts high.user_max_restarts;
  user_restart_window = overlay_number int32_min dest.user_restart_window high.user_restart_window;
  user_rate_limit = overlay_number int32_min dest.user_rate_limit high.user_rate_limit;
  randomize_rate_limit =
      overlay_number int8_min dest.randomize_rate_limit high.randomize_rate_limit;
  set_uid = overlay_number int32_min dest.set_uid high.set_uid;
  set_gid = overlay_number int32_min dest.set_gid high.set_gid;
  ringbuffer_size = overlay_number size_min dest.ringbuffer_size high.ringbuffer_size;
  reconnect_retries = overlay_number int32_min dest.reconnect_retries high.reconnect_retries;
  exec_start = overlay_array max_path_len dest.exec_start high.exec_start;
  exec_stop = overlay_array max_path_len dest.exec_stop high.exec_stop;
  exec_reload = overlay_array max_path_len dest.exec_reload high.exec_reload;
  redirect_stdout = overlay_array max_path_len dest.redirect_stdout high.redirect_stdout;
  redirect_stderr = overlay_array max_path_len dest.redirect_stderr high.redirect_stderr;
  initial_state = overlay_number 0 dest.initial_state high.initial_state;
  unconfigure_on_file_removal =
      overlay_number int8_min dest.unconfigure_on_file_removal high.unconfigure_on_file_removal;
  prefer_buddy_state_for_stopped =
      overlay_number int8_min dest.prefer_buddy_state_for_stopped
        high.prefer_buddy_state_for_stopped;
  prefer_buddy_state_for_running =
      overlay_number int8_min dest.prefer_buddy_state_for_running
        high.prefer_buddy_state_for_running;
}

-- upk_overlay_svcconf_values. The overlay of PipeStderrScript frees PipeStdoutScript.
unfoldable pub overlay_svcconf_values : SvcDesc → SvcDesc → Outcome SvcDesc
unfolding overlay_plain overlay_long overlay_script overlay_freeing overlay_actions
overlay_svcconf_values dest high =
    bind (overlay_long dest.long_description high.long_description) λ long.
      bind (overlay_script dest.start_script high.start_script) λ start.
        bind (overlay_script dest.stop_script high.stop_script) λ stop.
          bind (overlay_script dest.reload_script high.reload_script) λ reload.
            bind (overlay_actions dest.custom_actions high.custom_actions) λ actions.
              bind (overlay_script dest.pipe_stdout_script high.pipe_stdout_script) λ out.
                bind (overlay_freeing dest.pipe_stderr_script out high.pipe_stderr_script) λ pipes.
                  ok (record (overlay_plain dest high) {
                    long_description = long;
                    start_script = start;
                    stop_script = stop;
                    reload_script = reload;
                    custom_actions = actions;
                    pipe_stdout_script = pipes.1;
                    pipe_stderr_script = pipes.0;
                  })
