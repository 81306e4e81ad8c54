-- ===== src/Cmd/Run/Started.antt =====
-- What runs after cmdFunc.
use caddy_docker_proxy.Cmd.{Flags, Environment}
use caddy_docker_proxy.Cmd.Options.{create_options}
use caddy_docker_proxy.Cmd.Run.{
  Action, run_server, start_loader, stop_server, Outcomes, stop_error, run_controller, cmd_func,
}
use caddy_docker_proxy.Cmd.Settings.{text_setting, mode_of}
use caddy_docker_proxy.Config.{controller, server, runs_as}
use caddy_docker_proxy.Prelude.{
  ◌≡◌, refl, sym, subst, inl, inr, Bool, true, false, not, ◌&&◌, ◌||◌, Option, none, some, List, [],
  ◌∷◌, ◌++◌, append-nil, if◌then◌else◌, Bool-cases, Text, codes, text_eq, text_eq_iff,
}

abbrev pub is_none : Option Text → Bool
is_none none = true
is_none (some e) = false

-- The text of the mode, which is "controller", "server", or any other for both.
abbrev pub mode_text : Environment → Flags → Text
mode_text e flags = text_setting (e.get_env (codes "CADDY_DOCKER_MODE")) flags.mode

abbrev pub is_only_controller : Text → Bool
is_only_controller t = text_eq t (codes "controller")

abbrev pub is_only_server : Text → Bool
is_only_server t = text_eq t (codes "server")

-- What is done for the controller, and for the server before it.
abbrev pub loader_actions : Outcomes → Text → List Action
loader_actions r t =
    if is_only_server t
    then []
    else start_loader ∷ (if is_none r.start then [] else stop_server ∷ [])

abbrev pub all_actions : Outcomes → Text → Text → List Action
all_actions r listen t =
    if is_only_controller t
    then loader_actions r t
    else run_server listen ∷ (if is_none r.run then loader_actions r t else [])

-- Whether nothing fails that the mode needs.
abbrev pub is_well : Outcomes → Text → Bool
is_well r t = (is_only_controller t || is_none r.run) && (is_only_server t || is_none r.start)

-- The modes are two bits.
server_of : (t : Text) → runs_as server (mode_of t) ≡ not (is_only_controller t)
unfolding mode_of runs_as
server_of t = elim (Bool-cases (is_only_controller t)) [
  | inl p ↦ rw p refl
  | inr p ↦ elim (Bool-cases (is_only_server t)) [ inl q ↦ rw (p, q) refl | inr q ↦ rw (p, q) refl ]
]

not_both : (t : Text) → is_only_controller t ≡ true → is_only_server t ≡ false
unfolding text_eq
not_both t p =
    subst (λ z. is_only_server z ≡ false) (sym ((text_eq_iff t (codes "controller")).0 p)) refl

controller_of : (t : Text) → runs_as controller (mode_of t) ≡ not (is_only_server t)
unfolding mode_of runs_as
controller_of t = elim (Bool-cases (is_only_controller t)) [
  | inl p ↦ rw (p, not_both t p) refl
  | inr p ↦ elim (Bool-cases (is_only_server t)) [ inl q ↦ rw (p, q) refl | inr q ↦ rw (p, q) refl ]
]

module _ (r : Outcomes) (t : Text) where
  run_controller-eq :
      (actions : List Action)
      → ((run_controller r (mode_of t) actions).0 ≡ actions ++ loader_actions r t)
        × (is_none (run_controller r (mode_of t) actions).1 ≡ (is_only_server t || is_none r.start))
  unfolding run_controller
  run_controller-eq actions = elim (Bool-cases (is_only_server t)) [
    | inl q ↦ rw (controller_of t, q) (sym (append-nil actions), refl)
    | inr q ↦ rw (controller_of t, q) (by_start r.start)
  ]
    where
      started : Option Text → List Action × Option Text
      started o = elim o [
        | none ↦ (actions ++ start_loader ∷ [], none)
        | some e ↦ (actions ++ start_loader ∷ stop_server ∷ [], some (stop_error r.stop e))
      ]

      by_start :
          (o : Option Text)
          → ((started o).0 ≡ actions ++ start_loader ∷ (if is_none o then [] else stop_server ∷ []))
            × (is_none (started o).1 ≡ is_none o)
      by_start none = (refl, refl)
      by_start (some e) = (refl, refl)

  cmd_func-eq :
      (listen : Text)
      → ((cmd_func r listen (mode_of t)).0 ≡ all_actions r listen t)
        × (is_none (cmd_func r listen (mode_of t)).1 ≡ is_well r t)
  unfolding cmd_func
  cmd_func-eq listen = elim (Bool-cases (is_only_controller t)) [
    | inl p ↦ rw (server_of t, p) (run_controller-eq [])
    | inr p ↦ rw (server_of t, p) (by_run r.run)
  ]
    where
      served : Option Text → List Action × Option Text
      served o = elim o [
        | none ↦ run_controller r (mode_of t) (run_server listen ∷ [])
        | some e ↦ (run_server listen ∷ [], some e)
      ]

      by_run :
          (o : Option Text)
          → ((served o).0 ≡ run_server listen ∷ (if is_none o then loader_actions r t else []))
            × (is_none (served o).1 ≡ (is_none o && (is_only_server t || is_none r.start)))
      by_run none = run_controller-eq (run_server listen ∷ [])
      by_run (some e) = (refl, refl)

-- What the command does for the text of the mode that createOptions takes, the variable before the flag:
-- for "controller" it starts the loader only, for "server" it runs the server only, and for any other
-- both, the server first. The loader is not started after the server has failed, and the server is
-- stopped if the loader fails. The command stays, without an error, exactly if nothing fails that the
-- mode needs.
pub cmd_func-create_options :
    (e : Environment) (flags : Flags) (r : Outcomes) (listen : Text)
    → ((cmd_func r listen (create_options e flags).mode).0
        ≡ all_actions r listen (mode_text e flags))
      × (is_none (cmd_func r listen (create_options e flags).mode).1
          ≡ is_well r (mode_text e flags))
unfolding create_options
cmd_func-create_options e flags r listen = cmd_func-eq r (mode_text e flags) listen
