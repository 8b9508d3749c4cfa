-- ===== src/Constants.antt =====
-- src/common.cmake.h: the paths, message types and status codes that the processes share. The paths
-- that cmake fills in are parameters of the definitions that use them.
use cgproxy.Base.{ℕ}
use cgproxy.Base.{Bytes, codes}
use cgproxy.Base.Int.{ℤ, pos, negsuc}

abbrev pub cgroup2_mount_point : Bytes
cgroup2_mount_point = codes "/var/run/cgproxy/cgroup2"

abbrev pub pid_lock_file : Bytes
pid_lock_file = codes "/var/run/cgproxyd.pid"

abbrev pub socket_path : Bytes
socket_path = codes "/tmp/cgproxy_unix_socket"

abbrev pub listen_backlog : ℕ
listen_backlog = 64

abbrev pub read_size_max : ℕ
read_size_max = 128

abbrev pub cgroup_proxy_preserved : Bytes
cgroup_proxy_preserved = codes "/proxy.slice"

abbrev pub cgroup_noproxy_preserved : Bytes
cgroup_noproxy_preserved = codes "/noproxy.slice"

abbrev thread_timeout : ℕ
thread_timeout = 5

abbrev pub msg_type_config_json : ℤ
msg_type_config_json = pos 1

abbrev pub msg_type_config_path : ℤ
msg_type_config_path = pos 2

abbrev pub msg_type_proxy_pid : ℤ
msg_type_proxy_pid = pos 3

abbrev pub msg_type_noproxy_pid : ℤ
msg_type_noproxy_pid = pos 4

abbrev pub unknown_error : ℤ
unknown_error = pos 99

-- `ERROR`, and what `return_error` returns.
abbrev pub error : ℤ
error = negsuc 0

-- `SUCCESS`, and what `return_success` returns.
abbrev pub success : ℤ
success = pos 0

abbrev pub conn_error : ℤ
conn_error = pos 1

abbrev pub msg_error : ℤ
msg_error = pos 2

abbrev pub param_error : ℤ
param_error = pos 4

abbrev pub file_error : ℤ
file_error = pos 7

-- `EXIT_FAILURE`
abbrev pub exit_failure : ℤ
exit_failure = pos 1
