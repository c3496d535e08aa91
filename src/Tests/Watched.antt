-- ===== src/Tests/Watched.antt =====
-- A process under a limit on launches whose monitor is started for it.
use nv_resource_controller.Prelude.{refl, [], ◌∷◌, length, ◌==◌, if◌then◌else◌, arith}
use nv_resource_controller.Prelude.Int.{pos}
use nv_resource_controller.Prelude.Run.{Returns}
use nv_resource_controller.Prelude.Text.{Text}
use nv_resource_controller.Hook.Memory.{missing, holds}
use nv_resource_controller.Util.ShmAddr.Up.{AllSized}
use nv_resource_controller.Init.State.{zeroed_attr}
use nv_resource_controller.Init.Ready.{IsStarted}
use nv_resource_controller.Init.Tokens.{init_tokens}
use nv_resource_controller.Init.Watched.{init_tokens-main}
use nv_resource_controller.Monitor.Nvml.{init_handle}
use nv_resource_controller.Monitor.Watch.{MainCalls, MonitorState}
use nv_resource_controller.Monitor.Watch.First.{IsAtWork, main-init_attr}
use nv_resource_controller.Tests.Pace.{float, group}
use nv_resource_controller.Tests.Setup.{state}
use nv_resource_controller.Tests.Starts.{
  monitor, monitor_state, limited_calls, served, set_up, set_up_lem, there,
}

-- The monitor of the group on device 9, at 50 %
abbrev group_monitor : MainCalls
group_monitor = record monitor {
  strtol = λ text. if length text == 1 then pos 9 else pos 50;
  watch = record monitor.watch { attr_key = λ path. 3 };
}

-- The process has opened object 3.
abbrev group_state : MonitorState
group_state = record monitor_state { attrs = λ j. if j == 3 then holds zeroed_attr else missing }

at_work : IsAtWork group_monitor 9 group_state.hdr
unfolding init_handle
at_work = record {
  loaded = refl;
  nvml = refl;
  handle = refl;
  up = record { excl = refl; open' = refl; truncate = refl; map = refl };
}

sized : AllSized group_state.attrs
sized j e = ground arith

-- "9" and "50"
abbrev minor_arg : Text
minor_arg = 57 ∷ []

abbrev limit_arg : Text
limit_arg = 53 ∷ 48 ∷ []

init_tokens-main_example :
    Returns (λ _ t. IsStarted limited_calls group (pos 50) 3 t) (init_tokens limited_calls state)
init_tokens-main_example =
    init_tokens-main limited_calls group float group_monitor (109 ∷ []) minor_arg limit_arg state
      group_state served (λ j. there missing refl) refl
      (record {
        work = at_work;
        sized = sized;
        short = omega arith;
        minor = refl;
        names = λ path. refl;
        held = refl;
      })
      (main-init_attr float group_monitor (109 ∷ []) minor_arg group limit_arg group_state
        (set_up zeroed_attr) at_work sized (omega arith) set_up_lem)
