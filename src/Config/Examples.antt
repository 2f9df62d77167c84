-- ===== src/Config/Examples.antt =====
-- The configuration theorems at concrete inputs.
use upkeeper.Prelude.{some, ℕ, ◌≡◌, inl, refl, arith, List, [], ◌∷◌, ◌++◌, replicate}
use upkeeper.Prelude.{◌^◌, ◌-◌}
use upkeeper.Wire.Outcome.{ok, fault, overrun, dangling, bind}
use upkeeper.Config.Desc.{freed, held, SvcDesc, cleared, svc_desc_clear, svc_desc_free}
use upkeeper.Config.Overlay.{overlay_svcconf_values, overlay_plain, overlay_array}
use upkeeper.Config.Finalize.{
  finalize_svc_desc, finalize_svc_desc_lem, exec_start_mark, exec_stop_mark, exec_reload_mark,
  with_command, layered,
}
use upkeeper.Config.Settings.{Member, setting}
use upkeeper.Config.Overriding.{or_else, overlay_svcconf_values-setting}
use upkeeper.Util.Substitute.{substituted}
use upkeeper.Util.Replace.{starts_with}
use upkeeper.Config.Overlaying.{IsWhole}
use upkeeper.Config.Merging.{
  overlay_svcconf_values-svc_desc_clear, overlay_svcconf_values-dangling, cleared-IsWhole,
}
use upkeeper.Config.Names.{concat_svcid, svc_id, parse_svc_id, svcid_array_appender}
use upkeeper.Config.Naming.{parse_svc_id-svc_id, svcid_array_appender-concat_svcid}
use upkeeper.Config.Loading.{config_loadfile}
use upkeeper.Config.LoadLaws.{joined, config_loadfile-joined, config_loadfile-overrun}

-- Some defaults: a script that stops, and a priority.
abbrev defaults : SvcDesc
defaults = record cleared { stop_script = held (0x78 ∷ []); start_priority = 5 }

-- A service `a::s` with a script of its own, an action and a place for its output.
abbrev service : SvcDesc
service = record cleared {
  name = 0x73 ∷ [];
  package_name = 0x61 ∷ [];
  provides = record { pkg = []; name = 0x70 ∷ [] } ∷ [];
  stop_script = held (0x79 ∷ []);
  long_description = held (0x64 ∷ []);
  custom_actions = record { name = 0x66 ∷ []; script = held (0x67 ∷ []) } ∷ [];
  pipe_stdout_script = held (0x6F ∷ []);
}

abbrev errors_piped : SvcDesc
errors_piped = record cleared { pipe_stderr_script = held (0x65 ∷ []) }

defaults-IsWhole : IsWhole defaults
defaults-IsWhole = record {
  long_description = tt;
  start_script = tt;
  stop_script = tt;
  reload_script = tt;
  custom_actions = tt;
  pipe_stdout_script = tt;
  pipe_stderr_script = tt;
}

service-IsWhole : IsWhole service
service-IsWhole = record {
  long_description = tt;
  start_script = tt;
  stop_script = tt;
  reload_script = tt;
  custom_actions = (tt, tt);
  pipe_stdout_script = tt;
  pipe_stderr_script = tt;
}

errors_piped-IsWhole : IsWhole errors_piped
errors_piped-IsWhole = record {
  long_description = tt;
  start_script = tt;
  stop_script = tt;
  reload_script = tt;
  custom_actions = tt;
  pipe_stdout_script = tt;
  pipe_stderr_script = tt;
}

overlay-setting_example :
    (d : SvcDesc) × (bind
        (overlay_svcconf_values cleared defaults)
        (λ low. overlay_svcconf_values low service)
      ≡ ok d)
    × (bind (overlay_svcconf_values defaults service) (λ high. overlay_svcconf_values cleared high)
        ≡ ok d)
    × ((m : Member)
        → setting d m
          ≡ or_else (setting service m) (or_else (setting defaults m) (setting cleared m)))
    × (d.provides ≡ cleared.provides ++ (defaults.provides ++ service.provides))
    × (d.prerequisites ≡ cleared.prerequisites ++ (defaults.prerequisites ++ service.prerequisites))
overlay-setting_example =
    overlay_svcconf_values-setting cleared defaults service cleared-IsWhole defaults-IsWhole
      service-IsWhole tt tt

overlay-svc_desc_clear_example :
    overlay_svcconf_values service (svc_desc_clear defaults) ≡ ok service
overlay-svc_desc_clear_example =
    overlay_svcconf_values-svc_desc_clear service defaults service-IsWhole

overlay-dangling_example :
    (d : SvcDesc) × (overlay_svcconf_values service errors_piped ≡ ok d)
    × (d.pipe_stdout_script ≡ freed)
    × (svc_desc_free d ≡ fault dangling)
overlay-dangling_example =
    overlay_svcconf_values-dangling service errors_piped 0x65 [] (0x6F ∷ []) service-IsWhole
      errors_piped-IsWhole refl refl

parse_svc_id_example :
    (key : List ℕ) × (svc_id service ≡ ok key)
    × (parse_svc_id key defaults ≡ (
      service.package_name,
      record defaults { package_name = service.package_name; name = service.name },
    ))
parse_svc_id_example =
    parse_svc_id-svc_id service defaults (λ e. omega (arith, e)) (omega arith) (omega arith)

array_appender_example :
    (key : List ℕ) × (concat_svcid (0x61 ∷ []) (0x73 ∷ []) ≡ ok key)
    × (svcid_array_appender [] key
        ≡ [] ++ (record { pkg = 0x61 ∷ []; name = 0x3A ∷ 0x73 ∷ [] } ∷ []))
array_appender_example =
    svcid_array_appender-concat_svcid [] (0x61 ∷ []) (0x73 ∷ []) (λ e. omega (arith, e), tt)
      (omega arith) (omega arith)

-- `{` and `}`, each on a line
abbrev two_lines : List (List ℕ)
two_lines = (0x7B ∷ 0x0A ∷ []) ∷ (0x7D ∷ 0x0A ∷ []) ∷ []

loadfile-joined_example : config_loadfile two_lines ≡ ok (joined two_lines)
loadfile-joined_example =
    config_loadfile-joined two_lines (omega arith, (omega arith, tt))
      (λ e. omega (arith, e), (λ e. omega (arith, e), tt)) (omega arith)

loadfile-overrun_example : config_loadfile (replicate 130 0x20 ∷ two_lines) ≡ fault overrun
loadfile-overrun_example =
    config_loadfile-overrun (replicate 130 0x20) two_lines (inl (omega arith, omega arith))

-- The ServiceDefaults of the built-in configuration: `#!/bin/sh`, and `exec` with the mark.
abbrev sh_exec : List ℕ
sh_exec =
    0x23 ∷ 0x21 ∷ 0x2F ∷ 0x62 ∷ 0x69 ∷ 0x6E ∷ 0x2F ∷ 0x73 ∷ 0x68 ∷ 0x0A ∷ 0x65 ∷ 0x78 ∷ 0x65 ∷ 0x63
    ∷ 0x20 ∷ []

abbrev pid_end : List ℕ
pid_end = 0x20 ∷ 0x24 ∷ 0x31 ∷ 0x0A ∷ []

abbrev built_in : SvcDesc
built_in = record cleared {
  name =
      0x53 ∷ 0x65 ∷ 0x72 ∷ 0x76 ∷ 0x69 ∷ 0x63 ∷ 0x65 ∷ 0x44 ∷ 0x65 ∷ 0x66 ∷ 0x61 ∷ 0x75 ∷ 0x6C
      ∷ 0x74 ∷ 0x73 ∷ [];
  start_priority = 0;
  kill_timeout = 60;
  max_consecutive_failures = 2 ^ 32 - 1;
  randomize_rate_limit = 0;
  set_uid = 0;
  set_gid = 0;
  ringbuffer_size = 256;
  reconnect_retries = 10;
  start_script = held (sh_exec ++ (exec_start_mark ++ (0x0A ∷ [])));
  exec_stop = 0x6B ∷ 0x69 ∷ 0x6C ∷ 0x6C ∷ [];
  stop_script = held (sh_exec ++ (exec_stop_mark ++ pid_end));
  exec_reload = 0x6B ∷ 0x69 ∷ 0x6C ∷ 0x6C ∷ 0x20 ∷ 0x2D ∷ 0x48 ∷ 0x55 ∷ 0x50 ∷ [];
  reload_script = held (sh_exec ++ (exec_reload_mark ++ pid_end));
  initial_state = 3;
  unconfigure_on_file_removal = 0;
  prefer_buddy_state_for_stopped = 0;
  prefer_buddy_state_for_running = 1;
}

-- `web`, which runs `/bin/sleep 60`
abbrev web : SvcDesc
web = record cleared {
  name = 0x77 ∷ 0x65 ∷ 0x62 ∷ [];
  exec_start =
      0x2F ∷ 0x62 ∷ 0x69 ∷ 0x6E ∷ 0x2F ∷ 0x73 ∷ 0x6C ∷ 0x65 ∷ 0x65 ∷ 0x70 ∷ 0x20 ∷ 0x36 ∷ 0x30 ∷ [];
}

built_in-IsWhole : IsWhole built_in
built_in-IsWhole = record {
  long_description = tt;
  start_script = tt;
  stop_script = tt;
  reload_script = tt;
  custom_actions = tt;
  pipe_stdout_script = tt;
  pipe_stderr_script = tt;
}

web-IsWhole : IsWhole web
web-IsWhole = record {
  long_description = tt;
  start_script = tt;
  stop_script = tt;
  reload_script = tt;
  custom_actions = tt;
  pipe_stdout_script = tt;
  pipe_stderr_script = tt;
}

finalize_example :
    (let d = layered built_in cleared (some web) in
      finalize_svc_desc 0 built_in cleared (some web)
      ≡ ok (record d {
        start_script = with_command exec_start_mark d.exec_start d.start_script;
        stop_script = with_command exec_stop_mark d.exec_stop d.stop_script;
        reload_script = with_command exec_reload_mark d.exec_reload d.reload_script;
      }))
unfolding overlay_plain overlay_array
finalize_example =
    finalize_svc_desc_lem 0 built_in cleared (some web) cleared-IsWhole built_in-IsWhole tt
      (web-IsWhole, tt)
      (
        record {
          intact = tt;
          script_text = refl;
          command_text = refl;
          small = omega arith;
          length_differs = λ e. omega (arith, e);
        },
        record {
          intact = tt;
          script_text = refl;
          command_text = refl;
          small = omega arith;
          length_differs = λ e. omega (arith, e);
        },
        record {
          intact = tt;
          script_text = refl;
          command_text = refl;
          small = omega arith;
          length_differs = λ e. omega (arith, e);
        },
      )

-- What is then in StopScript
stop_script_text :
    with_command exec_stop_mark built_in.exec_stop built_in.stop_script
    ≡ held (sh_exec ++ (built_in.exec_stop ++ pid_end))
unfolding substituted starts_with
stop_script_text = refl
