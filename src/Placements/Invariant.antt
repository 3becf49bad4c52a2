-- ===== src/Placements/Invariant.antt =====
-- Invariants of the placement tables and of the task log, as instances of the closed ones.
use docker_mass_deployment.Base.{
  ℕ, ◌+◌, String, ◌≡◌, refl, ◌∙◌, Bool, true, false, not, List, [], ◌∷◌, ◌++◌, arith, ◌==◌,
  Distinct, Distinct-filter, Distinct-concat, Distinct-update_where, All, All-append, All-filter,
  All-update_where, any, filter, update_where, any-append, Bool-cases, inl, inr,
}
use docker_mass_deployment.Outside.{TaskFrame}
use docker_mass_deployment.Queue.{insert_task, queued_row}
use docker_mass_deployment.Queue.Log.{Since, Evolves, Evolves-append}
use docker_mass_deployment.Store.Rows.{Placement, Member, TaskRow, insert_row}
use docker_mass_deployment.Store.World.{Db}
use docker_mass_deployment.Placements.Tables.{
  placement_clash, placement_refused, member_clash, member_refused, insert_placement,
  update_placement, delete_placement, insert_member, update_member, delete_member, insert_audit,
  is_member_of,
}
use docker_mass_deployment.Placements.Closed.{IsKeyed, IsMemberKeyed, Closed}

-- No two placements share an id, a lab and node, or a node and SSH port; no two members share an
-- id, or a placement and student; and every member's placement exists.
pub record IsWellFormed (ps : List Placement) (ms : List Member) : Type 0 where
  pub placements : Distinct placement_clash ps
  pub members : Distinct member_clash ms
  pub placed : All (λ (m : Member). any (λ (p : Placement). p.id == m.placement_id) ps ≡ true) ms

abbrev pub WellFormed : Db → Type 0
WellFormed d = IsWellFormed d.placements.rows d.members.rows

insert_placement-task_log : (p : Placement) (d : Db) → (insert_placement p d).task_log ≡ d.task_log
unfolding insert_placement
insert_placement-task_log p d = ground arith

pub insert_member-task_log : (m : Member) (d : Db) → (insert_member m d).task_log ≡ d.task_log
unfolding insert_member
insert_member-task_log m d = ground arith

-- An invariant of the task log alone is kept by all that writes the other tables.
pub of_task_log-Closed :
    (P : List TaskRow → Type 0)
    → ((node : String) (f : TaskFrame) (job : ℕ) (rows : List TaskRow)
        → P rows
        → P (rows ++ queued_row node f job ∷ []))
    → Closed (λ d. P d.task_log)
unfolding insert_task insert_audit update_placement delete_placement update_member delete_member
of_task_log-Closed P step = record {
  task = λ node f job d h. step node f job d.task_log h;
  log_audit = λ row d h. h;
  new_placement = λ p d h. rw (insert_placement-task_log p d) h;
  placement = λ id f k d h. h;
  no_placement = λ id d h. h;
  new_member = λ m d h. rw (insert_member-task_log m d) h;
  member = λ id f k d h. h;
  no_member = λ p s d h. h;
}

pub Since-Closed : (n : String) (xs : List TaskRow) → Closed (Since n xs)
Since-Closed n xs =
    of_task_log-Closed (Evolves n xs)
      λ node f job rows h. Evolves-append n xs rows (queued_row node f job ∷ []) h

placement_clash_symm : (p q : Placement) → placement_clash p q ≡ placement_clash q p
placement_clash_symm p q = ground arith

member_clash_symm : (p q : Member) → member_clash p q ≡ member_clash q p
member_clash_symm p q = ground arith

-- The placement of an id is there.
abbrev has_id : ℕ → List Placement → Bool
has_id id ps = any (λ (p : Placement). p.id == id) ps

has_id-append :
    (id : ℕ) (ps qs : List Placement) → has_id id ps ≡ true → has_id id (ps ++ qs) ≡ true
has_id-append id ps qs h = rw (any-append (λ (p : Placement). p.id == id) ps qs) (rw h)

has_id-update :
    (id : ℕ) (p : Placement → Bool) (f : Placement → Placement)
    → IsKeyed f
    → (ps : List Placement) → has_id id (update_where p f ps) ≡ has_id id ps
has_id-update id p f k [] = refl
has_id-update id p f k (q ∷ qs) = ground (arith, k.id q, has_id-update id p f k qs)

has_id-filter :
    (id gone : ℕ) (ps : List Placement)
    → (id == gone) ≡ false
    → has_id id ps ≡ true
    → has_id id (filter (λ p. not (p.id == gone)) ps) ≡ true
has_id-filter id gone [] ne h = h
has_id-filter id gone (q ∷ qs) ne h = ground (arith, has_id-filter id gone qs ne)

-- Every member's placement is among these.
abbrev Placed : List Placement → List Member → Type 0
Placed ps ms = All (λ m. has_id m.placement_id ps ≡ true) ms

Placed-mono :
    (ps qs : List Placement)
    → ((id : ℕ) → has_id id ps ≡ true → has_id id qs ≡ true)
    → (ms : List Member) → Placed ps ms
    → Placed qs ms
Placed-mono ps qs more [] h = tt
Placed-mono ps qs more (m ∷ ms) (h, hs) = (more m.placement_id h, Placed-mono ps qs more ms hs)

Placed-filter :
    (ps : List Placement) (gone : ℕ) (ms : List Member)
    → Placed ps ms
    → Placed (filter (λ p. not (p.id == gone)) ps) (filter (λ m. not (m.placement_id == gone)) ms)
Placed-filter ps gone [] h = tt
Placed-filter ps gone (m ∷ ms) (h, hs) = elim (Bool-cases (m.placement_id == gone)) [
  | inl e ↦ rw e (Placed-filter ps gone ms hs)
  | inr e ↦ rw e (has_id-filter m.placement_id gone ps e h, Placed-filter ps gone ms hs)
]

Placed-update :
    (ps : List Placement) (p : Member → Bool) (f : Member → Member)
    → IsMemberKeyed f
    → (ms : List Member) → Placed ps ms
    → Placed ps (update_where p f ms)
Placed-update ps p f k ms h =
    All-update_where (λ m. has_id m.placement_id ps ≡ true) p f ms (λ m e. rw (k.placement m) e) h

insert_placement-WellFormed :
    (p : Placement) (d : Db) → WellFormed d → WellFormed (insert_placement p d)
unfolding insert_placement insert_row
insert_placement-WellFormed p d w =
    let row = record p { id = d.placements.last_id + 1 } in
    elim (Bool-cases (placement_refused row d)) [
      | inl e ↦ rw e w
      | inr e ↦ rw e (record {
        placements =
            Distinct-concat placement_clash placement_clash_symm d.placements.rows row
              (ground arith) w.placements;
        members = w.members;
        placed =
            Placed-mono d.placements.rows (d.placements.rows ++ row ∷ [])
              (λ id. has_id-append id d.placements.rows (row ∷ [])) d.members.rows w.placed;
      })
    ]

insert_member-WellFormed : (m : Member) (d : Db) → WellFormed d → WellFormed (insert_member m d)
unfolding insert_member insert_row
insert_member-WellFormed m d w =
    let row = record m { id = d.members.last_id + 1 } in
    elim (Bool-cases (member_refused row d)) [
      | inl e ↦ rw e w
      | inr e ↦ rw e (record {
        placements = w.placements;
        members =
            Distinct-concat member_clash member_clash_symm d.members.rows row (ground arith)
              w.members;
        placed =
            All-append (λ m. has_id m.placement_id d.placements.rows ≡ true) d.members.rows
              (row ∷ []) w.placed (ground arith, tt);
      })
    ]

update_placement-WellFormed :
    (id : ℕ) (f : Placement → Placement)
    → IsKeyed f
    → (d : Db) → WellFormed d
    → WellFormed (update_placement id f d)
unfolding update_placement
update_placement-WellFormed id f k d w = record {
  placements =
      Distinct-update_where placement_clash f (λ p. p.id == id)
        (λ x y. rw (k.id y, k.lab y, k.node y, k.port y))
        (λ x y. rw (k.id x, k.lab x, k.node x, k.port x)) d.placements.rows w.placements;
  members = w.members;
  placed =
      Placed-mono d.placements.rows _
        (λ i h. has_id-update i (λ p. p.id == id) f k d.placements.rows ∙ h) d.members.rows
        w.placed;
}

update_member-WellFormed :
    (id : ℕ) (f : Member → Member)
    → IsMemberKeyed f
    → (d : Db) → WellFormed d
    → WellFormed (update_member id f d)
unfolding update_member
update_member-WellFormed id f k d w = record {
  placements = w.placements;
  members =
      Distinct-update_where member_clash f (λ m. m.id == id)
        (λ x y. rw (k.id y, k.placement y, k.student y))
        (λ x y. rw (k.id x, k.placement x, k.student x)) d.members.rows w.members;
  placed = Placed-update d.placements.rows (λ m. m.id == id) f k d.members.rows w.placed;
}

pub WellFormed-Closed : Closed WellFormed
unfolding insert_task insert_audit delete_placement delete_member
WellFormed-Closed = record {
  task = λ node f job d w. w;
  log_audit = λ row d w. w;
  new_placement = insert_placement-WellFormed;
  placement = update_placement-WellFormed;
  no_placement = λ id d w. record {
    placements =
        Distinct-filter placement_clash (λ p. not (p.id == id)) d.placements.rows w.placements;
    members =
        Distinct-filter member_clash (λ m. not (m.placement_id == id)) d.members.rows w.members;
    placed = Placed-filter d.placements.rows id d.members.rows w.placed;
  };
  new_member = insert_member-WellFormed;
  member = update_member-WellFormed;
  no_member = λ p s d w. record {
    placements = w.placements;
    members = Distinct-filter member_clash (λ m. not (is_member_of p s m)) d.members.rows w.members;
    placed =
        All-filter (λ m. has_id m.placement_id d.placements.rows ≡ true)
          (λ m. not (is_member_of p s m)) d.members.rows w.placed;
  };
}
