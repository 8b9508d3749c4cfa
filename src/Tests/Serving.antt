-- ===== src/Tests/Serving.antt =====
-- Messages, loads of the configuration, and the daemon's start, on the machine.
use cgproxy.Base.{false, [], ◌∷◌, Bytes, codes, bytes_eq, ◌≡◌, refl}
use cgproxy.Base.Int.{pos}
use cgproxy.Constants.{pid_lock_file, file_error, param_error}
use cgproxy.Effect.{returned, Returns}
use cgproxy.System.{Os}
use cgproxy.Valid.{valid_cgroups, valid_port}
use cgproxy.Config.{default_config}
use cgproxy.Config.Load.{Host, key_of, validate_json_str, load_from_json_str, load_from_file}
use cgproxy.Config.Load.Validity.{IsValid, load_from_json_str-IsValid}
use cgproxy.Daemon.Messages.{
  Install, handle_msg, handle_json, dispatch, handle_config_path, apply_if_loaded,
}
use cgproxy.Daemon.Messages.Laws.{handle_msg-Returns, handle_msg-IsValid}
use cgproxy.Daemon.Messages.Branches.{handle_msg-Guarded}
use cgproxy.Daemon.Life.{lock}
use cgproxy.Base.Decimal.{show_ℤ, show_ℕ}
use cgproxy.Config.Load.{to_json, to_json_str}
use cgproxy.Config.Load.RoundTrip.{loaded, load_from_json_str-to_json_str}
use cgproxy.Tests.Postfix.{write, postfix, postfix-IsLawful, postfix-IsTyped}
use cgproxy.Tests.Machine.{Machine, machine}
use cgproxy.Tests.Codec.{codec, codec-ListsItems, codec-AtIsPlain, codec-StringsAreArrays}

abbrev pub install : Install
install = record {
  tproxy_iptables_start = codes "start";
  tproxy_iptables_clean = codes "clean";
  default_config_file = codes "/etc/cgproxy/config.json";
}

-- The file /c holds a valid configuration.
abbrev pub host : Host Machine
host = record {
  config = default_config;
  sys = record {
    uid = 0;
    pid = pos 7;
    files = (codes "/c", codes "c") ∷ [];
    dirs = [];
    links = [];
    ran = [];
  };
}

pub default-IsValid : IsValid default_config
unfolding valid_cgroups valid_port
default-IsValid = record { proxy_valid = refl; noproxy_valid = refl; port_valid = refl }

-- A message for the configuration in a file, one for process 42, and one with no type.
abbrev load_file : Bytes → Bytes
load_file path = 2 ∷ 0 ∷ 0 ∷ path

handle_msg-IsValid_example :
    IsValid (handle_msg machine codec install (load_file (codes "/c")) host).1.config
handle_msg-IsValid_example =
    handle_msg-IsValid machine codec install codec-ListsItems codec-StringsAreArrays
      (load_file (codes "/c")) host default-IsValid

handle_msg-Returns_example :
    Returns (handle_msg machine codec install (load_file (codes "/c")) host)
handle_msg-Returns_example =
    handle_msg-Returns machine codec install codec-AtIsPlain (load_file (codes "/c")) host

refused :
    (handle_msg machine codec install (load_file (codes "/none")) host).0 ≡ returned file_error
unfolding handle_msg handle_json dispatch handle_config_path load_from_file apply_if_loaded bytes_eq
refused = refl

handle_msg-Guarded_example :
    (handle_msg machine codec install (load_file (codes "/none")) host).1.config ≡ default_config
handle_msg-Guarded_example =
    handle_msg-Guarded machine codec install (load_file (codes "/none")) host
      (λ e. let r = refused in cc)

load_from_json_str-IsValid_example :
    IsValid (load_from_json_str machine codec (codes "c") host).1.config
load_from_json_str-IsValid_example =
    load_from_json_str-IsValid codec codec-ListsItems codec-StringsAreArrays machine (codes "c")
      host default-IsValid

param_answered : (load_from_json_str machine codec (codes "b") host).0 ≡ returned param_error
unfolding load_from_json_str validate_json_str key_of bytes_eq valid_port
param_answered = refl

-- Another process holds the lock.
abbrev locked : Os
locked = record machine { flock = λ _ m. (false, m) }

abbrev with_pid : Machine
with_pid = record host.sys { files = (pid_lock_file, codes "7\n") ∷ host.sys.files }

abbrev saved : Bytes
saved = write (to_json postfix default_config)

load_from_json_str-to_json_str_example :
    load_from_json_str machine postfix saved host ≡ loaded machine default_config host
unfolding to_json_str
load_from_json_str-to_json_str_example =
    load_from_json_str-to_json_str postfix postfix-IsLawful postfix-IsTyped machine default_config
      saved host default-IsValid refl

-- The configuration file is there and holds no JSON.
abbrev broken : Host Machine
broken = record host {
  sys = record host.sys { files = (codes "/etc/cgproxy/config.json", []) ∷ [] };
}

locks : lock machine broken.sys ≡ (
  returned (pos 3),
  record broken.sys { files = (pid_lock_file, codes "7\n") ∷ broken.sys.files },
)
unfolding lock show_ℤ show_ℕ
locks = refl
