-- ===== src/Router/Tests.antt =====
-- A launch of the router on a loopback address, and one that needs a key.
use llama_web_ui.Prelude.{◌≡◌, ◌↔◌, refl, true, none, some, [], same_text, string_discrete}
use llama_web_ui.Router.{
  RouterLaunch, System, accepted, rejected, key_file_required, launch_errors, collect, command,
  arguments,
}
use llama_web_ui.Router.Laws.{IsSafe, arguments_iff}

abbrev sys : System
sys = record {
  resolve = λ path. path;
  is_file = λ path. true;
  is_loopback = λ host. some (same_text host "127.0.0.1");
  show = λ n. "1234";
}

abbrev launch : RouterLaunch
launch = record {
  executable = "/bin/llama-server";
  preset_path = "/etc/models.ini";
  host = "127.0.0.1";
  port = 1234;
  api_key_file = none;
}

arguments_iff_example :
    (arguments sys launch ≡ accepted (command sys launch))
    ↔ (IsSafe sys launch × (command sys launch ≡ command sys launch))
arguments_iff_example = arguments_iff sys launch (command sys launch)

launch_is_accepted : arguments sys launch ≡ accepted (command sys launch)
unfolding arguments launch_errors collect string_discrete
launch_is_accepted = refl

-- The same launch on every address of the machine.
open_launch_is_rejected :
    arguments sys (record launch { host = "0.0.0.0" }) ≡ rejected key_file_required []
unfolding arguments launch_errors collect string_discrete
open_launch_is_rejected = refl
