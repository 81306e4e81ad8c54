-- ===== src/Cmd/Run/Listen.antt =====
-- The address that the server listens at.
use caddy_docker_proxy.Cmd.Run.{
  Addr, ip_addr, ip_net, other_addr, first_listen, listen_in, get_admin_listen,
}
use caddy_docker_proxy.Generator.Docker.{Answer}
use caddy_docker_proxy.Prelude.{
  ◌≡◌, refl, subst, ◌⊎◌, inl, inr, Bool, true, false, Option, none, some, List, [], ◌∷◌, ◌++◌, In,
  ok, err, Bool-cases, Text, codes,
}

-- One of the addresses that the interfaces tell.
abbrev pub IsToldOf : Text → List Addr → Type 0
IsToldOf ip addrs = In (ip_addr ip) addrs ⊎ In (ip_net ip) addrs

abbrev pub IsTold : Text → List (Answer (List Addr)) → Type 0
IsTold ip ifaces = (addrs : List Addr) × In (ok addrs) ifaces × IsToldOf ip addrs

-- The IP of an address.
ip_of : Addr → Text
ip_of (ip_addr ip) = ip
ip_of (ip_net ip) = ip
ip_of other_addr = []

module _ (allows : Text → Bool) where
  -- What a search finds among the addresses with a property.
  abbrev Found : (Text → Type 0) → Option Text → Type 0
  Found P none = (ip : Text) → P ip → allows ip ≡ false
  Found P (some ip) = P ip × (allows ip ≡ true)

  Found-widen :
      (P Q : Text → Type 0) (o : Option Text)
      → ((ip : Text) → P ip → Q ip)
      → ((ip : Text) → Q ip → P ip ⊎ (allows ip ≡ false))
      → Found P o
      → Found Q o
  Found-widen P Q (some ip) to from (p, t) = (to ip p, t)
  Found-widen P Q none to from f = λ ip q. elim (from ip q) [ inl p ↦ f ip p | inr e ↦ e ]

  -- A first address that is not allowed.
  Found-next :
      (a : Addr) (addrs : List Addr) (o : Option Text)
      → ((ip : Text) → (a ≡ ip_addr ip) ⊎ (a ≡ ip_net ip) → allows ip ≡ false)
      → Found (λ ip. IsToldOf ip addrs) o
      → Found (λ ip. IsToldOf ip (a ∷ addrs)) o
  Found-next a addrs o h =
      Found-widen (λ ip. IsToldOf ip addrs) (λ ip. IsToldOf ip (a ∷ addrs)) o to from
    where
      to : (ip : Text) → IsToldOf ip addrs → IsToldOf ip (a ∷ addrs)
      to ip (inl i) = inl (inr i)
      to ip (inr i) = inr (inr i)

      from : (ip : Text) → IsToldOf ip (a ∷ addrs) → IsToldOf ip addrs ⊎ (allows ip ≡ false)
      from ip (inl (inl e)) = inr (h ip (inl e))
      from ip (inl (inr i)) = inl (inl i)
      from ip (inr (inl e)) = inr (h ip (inr e))
      from ip (inr (inr i)) = inl (inr i)

  refused :
      (a : Addr)
      → allows (ip_of a) ≡ false
      → (ip : Text) → (a ≡ ip_addr ip) ⊎ (a ≡ ip_net ip)
      → allows ip ≡ false
  unfolding ip_of
  refused a h ip (inl e) = subst (λ x. allows (ip_of x) ≡ false) e h
  refused a h ip (inr e) = subst (λ x. allows (ip_of x) ≡ false) e h

  first_listen-Found :
      (addrs : List Addr) → Found (λ ip. IsToldOf ip addrs) (first_listen allows addrs)
  unfolding first_listen ip_of
  first_listen-Found [] = λ ip i. elim i [ inl j ↦ absurd j | inr j ↦ absurd j ]
  first_listen-Found (ip_addr x ∷ addrs) = elim (Bool-cases (allows x)) [
    | inl t ↦ rw t (inl (inl refl), t)
    | inr t ↦ rw t (
        Found-next (ip_addr x) addrs (first_listen allows addrs) (refused (ip_addr x) t)
          (first_listen-Found addrs))
  ]
  first_listen-Found (ip_net x ∷ addrs) = elim (Bool-cases (allows x)) [
    | inl t ↦ rw t (inr (inl refl), t)
    | inr t ↦ rw t (
        Found-next (ip_net x) addrs (first_listen allows addrs) (refused (ip_net x) t)
          (first_listen-Found addrs))
  ]
  first_listen-Found (other_addr ∷ addrs) =
      Found-next other_addr addrs (first_listen allows addrs) (λ ip. no_ip ip)
        (first_listen-Found addrs)
    where
      no_ip : (ip : Text) → (other_addr ≡ ip_addr ip) ⊎ (other_addr ≡ ip_net ip) → allows ip ≡ false
      no_ip ip (inl e) = cc
      no_ip ip (inr e) = cc

  -- The interfaces behind one that tells nothing that is allowed.
  Found-behind :
      (iface : Answer (List Addr)) (ifaces : List (Answer (List Addr))) (o : Option Text)
      → ((addrs : List Addr) → iface ≡ ok addrs → Found (λ ip. IsToldOf ip addrs) none)
      → Found (λ ip. IsTold ip ifaces) o
      → Found (λ ip. IsTold ip (iface ∷ ifaces)) o
  Found-behind iface ifaces o h =
      Found-widen (λ ip. IsTold ip ifaces) (λ ip. IsTold ip (iface ∷ ifaces)) o
        (λ ip told. (told.0, inr told.1, told.2)) from
    where
      from : (ip : Text) → IsTold ip (iface ∷ ifaces) → IsTold ip ifaces ⊎ (allows ip ≡ false)
      from ip (addrs, inl e, told) = inr (h addrs e ip told)
      from ip (addrs, inr i, told) = inl (addrs, i, told)

  listen_in-Found :
      (ifaces : List (Answer (List Addr)))
      → Found (λ ip. IsTold ip ifaces) (listen_in allows ifaces)
  unfolding listen_in
  listen_in-Found [] = λ ip told. absurd told.1
  listen_in-Found (err e ∷ ifaces) =
      Found-behind (err e) ifaces (listen_in allows ifaces) (λ addrs q. absurd (not_ok q))
        (listen_in-Found ifaces)
    where
      not_ok : {addrs : List Addr} → ◌≡◌ {A = Answer (List Addr)} (err e) (ok addrs) → ⊥
      not_ok q = cc
  listen_in-Found (ok addrs ∷ ifaces) =
      by_first (first_listen allows addrs) (first_listen-Found addrs) (listen_in-Found ifaces)
    where
      by_first :
          (o : Option Text)
          → Found (λ ip. IsToldOf ip addrs) o
          → Found (λ ip. IsTold ip ifaces) (listen_in allows ifaces)
          → Found
              (λ ip. IsTold ip (ok addrs ∷ ifaces))
              (elim o [ none ↦ listen_in allows ifaces | some ip ↦ some ip ])
      by_first (some ip) (told, t) g = ((addrs, inl refl, told), t)
      by_first none f g =
          Found-behind (ok addrs) ifaces (listen_in allows ifaces)
            (λ addrs' q. subst (λ zs. Found (λ ip. IsToldOf ip zs) none) (ok_addrs q) f) g
        where
          ok_addrs : {ys zs : List Addr} → ◌≡◌ {A = Answer (List Addr)} (ok ys) (ok zs) → ys ≡ zs
          ok_addrs q = cc

-- With a controller network, the server listens at an address of its interfaces that the network
-- contains, if there is one, and at localhost if there is none. An interface whose addresses are not
-- told does not count.
pub get_admin_listen-IsTold :
    (contains_ip : Text → Text → Bool) (ifaces : List (Answer (List Addr))) (network : Text)
    → ((ip : Text) × IsTold ip ifaces
        × (contains_ip network ip ≡ true)
        × (get_admin_listen contains_ip (ok ifaces) (some network)
            ≡ codes "tcp/" ++ (ip ++ codes ":2019")))
      ⊎ (((ip : Text) → IsTold ip ifaces → contains_ip network ip ≡ false)
          × (get_admin_listen contains_ip (ok ifaces) (some network) ≡ codes "tcp/localhost:2019"))
unfolding get_admin_listen
get_admin_listen-IsTold contains_ip ifaces network =
    by_search (listen_in (contains_ip network) ifaces) refl
      (listen_in-Found (contains_ip network) ifaces)
  where
    by_search :
        (o : Option Text)
        → listen_in (contains_ip network) ifaces ≡ o
        → Found (contains_ip network) (λ ip. IsTold ip ifaces) o
        → ((ip : Text) × IsTold ip ifaces
            × (contains_ip network ip ≡ true)
            × (get_admin_listen contains_ip (ok ifaces) (some network)
                ≡ codes "tcp/" ++ (ip ++ codes ":2019")))
          ⊎ (((ip : Text) → IsTold ip ifaces → contains_ip network ip ≡ false)
              × (get_admin_listen contains_ip (ok ifaces) (some network)
                  ≡ codes "tcp/localhost:2019"))
    by_search (some ip) e (told, t) = inl (ip, told, t, rw (get_admin_listen, e) refl)
    by_search none e f = inr (f, rw (get_admin_listen, e) refl)
