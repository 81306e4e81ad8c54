-- ===== src/Cmd/Run.antt =====
-- cmd.go: cmdFunc and getAdminListen.
pub mod Listen
pub mod Started
use caddy_docker_proxy.Config.{Mode, controller, server, runs_as}
use caddy_docker_proxy.Generator.Docker.{Answer}
use caddy_docker_proxy.Prelude.{
  Bool, Option, none, some, List, [], ◌∷◌, ◌++◌, ok, err, if◌then◌else◌, Text, codes,
}

-- An address of an interface: *net.IPAddr or *net.IPNet with its IP, or of another type.
pub data Addr : Type 0 where
  ip_addr : Text → Addr
  ip_net : Text → Addr
  other_addr : Addr

-- The address to listen at of the first IP that the test allows.
unfoldable pub first_listen : (Text → Bool) → List Addr → Option Text
first_listen allows [] = none
first_listen allows (a ∷ addrs) =
    let later = first_listen allows addrs in
    elim a [
      | ip_addr ip ↦ if allows ip then some ip else later
      | ip_net ip ↦ if allows ip then some ip else later
      | other_addr ↦ later
    ]

-- The loop over the interfaces; one whose addresses are not told is skipped.
unfoldable pub listen_in : (Text → Bool) → List (Answer (List Addr)) → Option Text
unfolding first_listen
listen_in allows [] = none
listen_in allows (iface ∷ ifaces) =
    let later = listen_in allows ifaces in
    elim iface [
      | err e ↦ later
      | ok addrs ↦ elim (first_listen allows addrs) [ none ↦ later | some ip ↦ some ip ]
    ]

-- Without an answer there are no interfaces.
abbrev pub or_no_ifaces : Answer (List (Answer (List Addr))) → List (Answer (List Addr))
or_no_ifaces (ok ifaces) = ifaces
or_no_ifaces (err e) = []

-- getAdminListen; the first argument is `Contains` of a network.
unfoldable pub get_admin_listen :
    (Text → Text → Bool) → Answer (List (Answer (List Addr))) → Option Text → Text
unfolding listen_in
get_admin_listen contains_ip ifaces none = codes "tcp/localhost:2019"
get_admin_listen contains_ip ifaces (some network) =
    elim (listen_in (contains_ip network) (or_no_ifaces ifaces)) [
      | none ↦ codes "tcp/localhost:2019"
      | some ip ↦ codes "tcp/" ++ (ip ++ codes ":2019")
    ]

-- What cmdFunc starts and stops.
pub data Action : Type 0 where
  run_server : Text → Action
  start_loader : Action
  stop_server : Action

-- caddy.Run, the loader's Start and caddy.Stop, with the error of each.
pub record Outcomes : Type 0 where
  pub run : Option Text
  pub start : Option Text
  pub stop : Option Text

-- The error that is returned where the loader has not started.
abbrev pub stop_error : Option Text → Text → Text
stop_error none e = e
stop_error (some e') e = e'

-- The part of cmdFunc for the controller; `none` is the wait at the end.
unfoldable pub run_controller : Outcomes → Mode → List Action → List Action × Option Text
unfolding runs_as
run_controller r mode actions =
    if runs_as controller mode
    then elim r.start [
      | none ↦ (actions ++ start_loader ∷ [], none)
      | some e ↦ (actions ++ start_loader ∷ stop_server ∷ [], some (stop_error r.stop e))
    ]
    else (actions, none)

-- cmdFunc, with the address of getAdminListen; the exit code of an error is 1.
unfoldable pub cmd_func : Outcomes → Text → Mode → List Action × Option Text
unfolding runs_as run_controller
cmd_func r listen mode =
    if runs_as server mode
    then elim r.run [
      | none ↦ run_controller r mode (run_server listen ∷ [])
      | some e ↦ (run_server listen ∷ [], some e)
    ]
    else run_controller r mode []
