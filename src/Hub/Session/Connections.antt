-- ===== src/Hub/Session/Connections.antt =====
-- The table of connections in `controller/src/lib/hub.ts`: at most one per node.
use docker_mass_deployment.Base.{
  ℕ, String, ◌≡◌, refl, sym, ap, ◌∙◌, true, false, Option, none, some, List, [], ◌∷◌, ◌++◌, arith,
  str_eq, eq_iff, eq_refl, find?, Bool-cases, inl, inr, if◌then◌else◌,
}
use docker_mass_deployment.Hub.Session.{
  Conn, Hub, close, connection, without, cancel_offline_alert, set_connection, drop_connection,
  supersede,
}

-- The connection of a node in a list of them.
abbrev look : String → List Conn → Option Conn
look node cs = find? (λ c. str_eq c.node node) cs

pub str_eq_other : (s m n : String) → str_eq s n ≡ true → str_eq m n ≡ false → str_eq s m ≡ false
str_eq_other s m n h k = elim (Bool-cases (str_eq s m)) [
  | inl e ↦ absurd (clash (sym k ∙ (ap (λ x. str_eq x n) (sym ((eq_iff s m).0 e)) ∙ h)))
  | inr e ↦ e
]
  where
    clash : false ≡ true → ⊥
    clash p = ground arith

look-without : (node : String) (cs : List Conn) → look node (without node cs) ≡ none
look-without node [] = refl
look-without node (c ∷ cs) = ground (arith, look-without node cs)

look-without_other :
    (m node : String) (cs : List Conn)
    → str_eq m node ≡ false
    → look m (without node cs) ≡ look m cs
look-without_other m node [] h = refl
look-without_other m node (c ∷ cs) h = elim (Bool-cases (str_eq c.node node)) [
  | inl e ↦ rw (e, str_eq_other c.node m node e h) (look-without_other m node cs h)
  | inr e ↦ rw e (ap (λ r. if str_eq c.node m then some c else r) (look-without_other m node cs h))
]

look-concat :
    (m : String) (cs : List Conn) (c : Conn)
    → look m cs ≡ none
    → look m (cs ++ c ∷ []) ≡ look m (c ∷ [])
look-concat m [] c h = refl
look-concat m (d ∷ cs) c h = grind (arith, look-concat m cs c)

look-concat_other :
    (m : String) (cs : List Conn) (c : Conn)
    → str_eq c.node m ≡ false
    → look m (cs ++ c ∷ []) ≡ look m cs
look-concat_other m [] c h = rw h refl
look-concat_other m (d ∷ cs) c h =
    ap (λ r. if str_eq d.node m then some d else r) (look-concat_other m cs c h)

str_eq-false_symm : (m n : String) → str_eq m n ≡ false → str_eq n m ≡ false
str_eq-false_symm m n h = str_eq_other n m n (eq_refl n) h

pub connection-set_connection :
    (c : Conn) (h : Hub) → connection c.node (set_connection c h) ≡ some c
unfolding connection set_connection
connection-set_connection c h =
    look-concat c.node (without c.node h.connections) c (look-without c.node h.connections)
    ∙ rw (eq_refl c.node) refl

pub connection-set_connection_other :
    (m : String) (c : Conn) (h : Hub)
    → str_eq m c.node ≡ false
    → connection m (set_connection c h) ≡ connection m h
unfolding connection set_connection
connection-set_connection_other m c h k =
    look-concat_other m (without c.node h.connections) c (str_eq-false_symm m c.node k)
    ∙ look-without_other m c.node h.connections k

pub connection-drop_connection :
    (node : String) (h : Hub) → connection node (drop_connection node h) ≡ none
unfolding connection drop_connection
connection-drop_connection node h = look-without node h.connections

pub connection-drop_connection_other :
    (m node : String) (h : Hub)
    → str_eq m node ≡ false
    → connection m (drop_connection node h) ≡ connection m h
unfolding connection drop_connection
connection-drop_connection_other m node h k = look-without_other m node h.connections k

pub connection-close :
    (m : String) (s code : ℕ) (h : Hub) → connection m (close s code h) ≡ connection m h
unfolding connection close
connection-close m s code h = refl

pub connection-cancel_offline_alert :
    (m node : String) (h : Hub) → connection m (cancel_offline_alert node h) ≡ connection m h
unfolding connection cancel_offline_alert
connection-cancel_offline_alert m node h = refl

pub connection-supersede :
    (m : String) (c : Option Conn) (h : Hub) → connection m (supersede c h) ≡ connection m h
connection-supersede m none h = refl
connection-supersede m (some c) h = connection-close m c.socket 1005 h
