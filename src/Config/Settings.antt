-- ===== src/Config/Settings.antt =====
-- upk_config.c: a service descriptor as a map from the names of its members to what they are set to.
use upkeeper.Prelude.{ℕ, ◌-◌, Option, none, some, List, [], ◌∷◌, ◌==◌, if◌then◌else◌, take}
use upkeeper.Wire.Outcome.{max_string_len}
use upkeeper.Uuid.Fields.{Uuid}
use upkeeper.Config.Desc.{Text, null, freed, held, CustAct, SvcDesc, int32_min, int8_min, size_min}
use upkeeper.Config.Overlay.{is_set, max_path_len}

-- What a member can be set to.
pub data Setting : Type 0 where
  number : ℕ → Setting
  text : List ℕ → Setting
  identifier : Uuid → Setting
  actions : List CustAct → Setting

-- The members, but for the lists of services.
pub data Member : Type 0 where
  start_priority kill_timeout max_consecutive_failures user_max_restarts : Member
  user_restart_window user_rate_limit randomize_rate_limit set_uid : Member
  set_gid ringbuffer_size reconnect_retries initial_state : Member
  unconfigure_on_file_removal prefer_buddy_state_for_stopped prefer_buddy_state_for_running name :
      Member
  package_name short_description exec_start exec_stop : Member
  exec_reload redirect_stdout redirect_stderr long_description : Member
  start_script stop_script reload_script pipe_stdout_script : Member
  pipe_stderr_script uuid custom_actions : Member

unfoldable pub number_setting : ℕ → ℕ → Option Setting
number_setting unset n = if n == unset then none else some (number n)

-- An array of `n` bytes
unfoldable pub array_setting : ℕ → List ℕ → Option Setting
array_setting n [] = none
array_setting n (c ∷ cs) = some (text (take (n - 1) (c ∷ cs)))

unfoldable pub text_setting : Text → Option Setting
text_setting null = none
text_setting freed = none
text_setting (held []) = none
text_setting (held (c ∷ cs)) = some (text (c ∷ cs))

unfoldable pub uuid_setting : Uuid → Option Setting
unfolding is_set
uuid_setting u = if is_set u then some (identifier u) else none

unfoldable pub actions_setting : List CustAct → Option Setting
actions_setting [] = none
actions_setting (a ∷ acts) = some (actions (a ∷ acts))

-- `none` where the member has the value that stands for no setting.
unfoldable pub setting : SvcDesc → Member → Option Setting
unfolding number_setting array_setting text_setting uuid_setting actions_setting
setting d Member.start_priority = number_setting int32_min d.start_priority
setting d Member.kill_timeout = number_setting int32_min d.kill_timeout
setting d Member.max_consecutive_failures = number_setting int32_min d.max_consecutive_failures
setting d Member.user_max_restarts = number_setting int32_min d.user_max_restarts
setting d Member.user_restart_window = number_setting int32_min d.user_restart_window
setting d Member.user_rate_limit = number_setting int32_min d.user_rate_limit
setting d Member.randomize_rate_limit = number_setting int8_min d.randomize_rate_limit
setting d Member.set_uid = number_setting int32_min d.set_uid
setting d Member.set_gid = number_setting int32_min d.set_gid
setting d Member.ringbuffer_size = number_setting size_min d.ringbuffer_size
setting d Member.reconnect_retries = number_setting int32_min d.reconnect_retries
setting d Member.initial_state = number_setting 0 d.initial_state
setting d Member.unconfigure_on_file_removal = number_setting int8_min d.unconfigure_on_file_removal
setting d Member.prefer_buddy_state_for_stopped =
    number_setting int8_min d.prefer_buddy_state_for_stopped
setting d Member.prefer_buddy_state_for_running =
    number_setting int8_min d.prefer_buddy_state_for_running
setting d Member.name = array_setting max_string_len d.name
setting d Member.package_name = array_setting max_string_len d.package_name
setting d Member.short_description = array_setting max_string_len d.short_description
setting d Member.exec_start = array_setting max_path_len d.exec_start
setting d Member.exec_stop = array_setting max_path_len d.exec_stop
setting d Member.exec_reload = array_setting max_path_len d.exec_reload
setting d Member.redirect_stdout = array_setting max_path_len d.redirect_stdout
setting d Member.redirect_stderr = array_setting max_path_len d.redirect_stderr
setting d Member.long_description = text_setting d.long_description
setting d Member.start_script = text_setting d.start_script
setting d Member.stop_script = text_setting d.stop_script
setting d Member.reload_script = text_setting d.reload_script
setting d Member.pipe_stdout_script = text_setting d.pipe_stdout_script
setting d Member.pipe_stderr_script = text_setting d.pipe_stderr_script
setting d Member.uuid = uuid_setting d.uuid
setting d Member.custom_actions = actions_setting d.custom_actions
