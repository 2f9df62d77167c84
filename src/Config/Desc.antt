-- ===== src/Config/Desc.antt =====
-- upk_config.h: service descriptors; upk_config.c: how one is emptied and freed.
--
-- A signed number is the number of its bits. A list that is NULL is empty, since the code asks only for
-- its count. The fields that no function of upk_config.c reads or sets are left out.
use upkeeper.Prelude.{ℕ, ◌-◌, ◌^◌, List, [], ◌∷◌}
use upkeeper.Wire.Outcome.{Outcome, ok, fault, dangling, bind}
use upkeeper.Uuid.Fields.{Uuid}

-- A `char *`: NULL, a text on the heap, or one that was freed.
pub data Text : Type 0 where
  null freed : Text
  held : List ℕ → Text

-- upk_svcid_t
pub record SvcId : Type 0 where
  pub pkg : List ℕ
  pub name : List ℕ

-- upk_cust_actscr_t
pub record CustAct : Type 0 where
  pub name : List ℕ
  pub script : Text

-- upk_svc_desc_t
pub record SvcDesc : Type 0 where
  pub start_priority : ℕ
  pub name : List ℕ
  pub package_name : List ℕ
  pub provides : List SvcId
  pub uuid : Uuid
  pub short_description : List ℕ
  pub long_description : Text
  pub prerequisites : List SvcId
  pub kill_timeout : ℕ
  pub max_consecutive_failures : ℕ
  pub user_max_restarts : ℕ
  pub user_restart_window : ℕ
  pub user_rate_limit : ℕ
  pub randomize_rate_limit : ℕ
  pub set_uid : ℕ
  pub set_gid : ℕ
  pub ringbuffer_size : ℕ
  pub reconnect_retries : ℕ
  pub exec_start : List ℕ
  pub start_script : Text
  pub exec_stop : List ℕ
  pub stop_script : Text
  pub exec_reload : List ℕ
  pub reload_script : Text
  pub custom_actions : List CustAct
  pub pipe_stdout_script : Text
  pub pipe_stderr_script : Text
  pub redirect_stdout : List ℕ
  pub redirect_stderr : List ℕ
  pub initial_state : ℕ
  pub unconfigure_on_file_removal : ℕ
  pub prefer_buddy_state_for_stopped : ℕ
  pub prefer_buddy_state_for_running : ℕ

-- INT32_MIN in 32 bits, INT8_MIN in 8, and INT32_MIN as a size_t
abbrev pub int32_min : ℕ
int32_min = 2 ^ 31

abbrev pub int8_min : ℕ
int8_min = 2 ^ 7

abbrev pub size_min : ℕ
size_min = 2 ^ 64 - 2 ^ 31

abbrev pub no_uuid : Uuid
no_uuid = record {
  time_low = 0;
  time_mid = 0;
  time_high_and_version = 0;
  clk_seq_high = 0;
  clk_seq_low = 0;
  node = (0, 0, 0, 0, 0, 0);
}

-- What upk_svc_desc_clear leaves, whatever there was.
abbrev pub cleared : SvcDesc
cleared = record {
  start_priority = int32_min;
  name = [];
  package_name = [];
  provides = [];
  uuid = no_uuid;
  short_description = [];
  long_description = null;
  prerequisites = [];
  kill_timeout = int32_min;
  max_consecutive_failures = int32_min;
  user_max_restarts = int32_min;
  user_restart_window = int32_min;
  user_rate_limit = int32_min;
  randomize_rate_limit = int8_min;
  set_uid = int32_min;
  set_gid = int32_min;
  ringbuffer_size = size_min;
  reconnect_retries = int32_min;
  exec_start = [];
  start_script = null;
  exec_stop = [];
  stop_script = null;
  exec_reload = [];
  reload_script = null;
  custom_actions = [];
  pipe_stdout_script = null;
  pipe_stderr_script = null;
  redirect_stdout = [];
  redirect_stderr = [];
  initial_state = 0;
  unconfigure_on_file_removal = int8_min;
  prefer_buddy_state_for_stopped = int8_min;
  prefer_buddy_state_for_running = int8_min;
}

unfoldable pub svc_desc_clear : SvcDesc → SvcDesc
svc_desc_clear svc = cleared

-- `if(p) free(p)`
unfoldable pub free_text : Text → Outcome Text
free_text null = ok null
free_text (held s) = ok freed
free_text freed = fault dangling

-- The scripts of custom actions, freed in the order of the list, which is then empty.
unfoldable pub free_actions : List CustAct → Outcome (List CustAct)
unfolding free_text
free_actions [] = ok []
free_actions (a ∷ acts) = bind (free_text a.script) λ s. free_actions acts

unfoldable pub svc_desc_free : SvcDesc → Outcome SvcDesc
unfolding free_actions free_text
svc_desc_free svc = bind (free_text svc.long_description) λ long.
    bind (free_text svc.start_script) λ start. bind (free_text svc.stop_script) λ stop.
      bind (free_text svc.reload_script) λ reload. bind (free_actions svc.custom_actions) λ actions.
        bind (free_text svc.pipe_stdout_script) λ out.
          bind (free_text svc.pipe_stderr_script) λ errors. bind (free_text long) λ again.
            ok (record svc {
              provides = [];
              prerequisites = [];
              long_description = again;
              start_script = start;
              stop_script = stop;
              reload_script = reload;
              custom_actions = actions;
              pipe_stdout_script = out;
              pipe_stderr_script = errors;
            })
