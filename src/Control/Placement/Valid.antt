-- ===== src/Control/Placement/Valid.antt =====
-- What `ShardPlacement::validate` accepts.
use dtgproxy.Base.{
  ℕ, ◌≡◌, ◌≢◌, ◌↔◌, ◌⊎◌, inl, inr, refl, sym, subst, true, false, List, [], ◌∷◌, any, All, All-map,
  is_nil, arith, ◌==◌, none, some, ok, >>=-eq-ok, Option-cases, Bool-cases, Result-cases,
}
use dtgproxy.Base.Map.{
  Map, Set, get, insert, nat_key, pair_key, get-insert, get-insert_self, pair_same_iff,
}
use dtgproxy.Control.{ReplicaBindingRecord}
use dtgproxy.Control.Placement.{
  ShardPlacement, generation_of, class_of, replica_key, is_retiring, differs, check_replica,
  check_replicas, validate,
}

-- The identity and the role of one replica.
pub record Fits (p : ShardPlacement) (r : ReplicaBindingRecord) : Type 0 where
  pub graph : r.binding.graph_id ≡ p.graph_id
  pub shard : r.binding.shard_id ≡ p.shard_id
  pub epoch : r.binding.placement_epoch ≡ p.placement_epoch
  pub role : (is_retiring r.binding.role ≡ true) ↔ (generation_of r ≢ p.active_generation)

abbrev pub IsApart : List ReplicaBindingRecord → Type 0
IsApart [] = Unit
IsApart (r ∷ rest) = All (λ q. replica_key q ≢ replica_key r) rest × IsApart rest

-- One round, when it goes on.
pub check_replica-inverse :
    (p : ShardPlacement) (classes : Map ℕ ℕ) (seen : Set (ℕ × ℕ)) (r : ReplicaBindingRecord)
    (out : Map ℕ ℕ × Set (ℕ × ℕ))
    → check_replica p classes seen r ≡ ok out
    → Fits p r
      × (get (replica_key r) seen ≡ none)
      × (differs (get (generation_of r) classes) (class_of r) ≡ false)
      × ((insert (generation_of r) (class_of r) classes, insert (replica_key r) tt seen) ≡ out)
unfolding check_replica
check_replica-inverse p classes seen r out e = (
  record {
    graph = ground arith;
    shard = ground arith;
    epoch = ground arith;
    role = (λ h. λ same. ground arith, λ h. ground arith);
  },
  ground arith,
  ground arith,
  ground arith,
)

pub check_replica_goes_on :
    (p : ShardPlacement) (classes : Map ℕ ℕ) (seen : Set (ℕ × ℕ)) (r : ReplicaBindingRecord)
    → Fits p r
    → get (replica_key r) seen ≡ none
    → differs (get (generation_of r) classes) (class_of r) ≡ false
    → check_replica p classes seen r
      ≡ ok (insert (generation_of r) (class_of r) classes, insert (replica_key r) tt seen)
unfolding check_replica
check_replica_goes_on p classes seen r fits free same =
    ground (arith, fits.graph, fits.shard, fits.epoch, fits.role)

-- A class that is known stays known, and so does every replica that was seen.
pub record Walked (classes : Map ℕ ℕ) (seen : Set (ℕ × ℕ)) (rs : List ReplicaBindingRecord)
    (out : Map ℕ ℕ) : Type 0 where
  pub kept : (g d : ℕ) → get g classes ≡ some d → get g out ≡ some d
  pub known : All (λ r. get (generation_of r) out ≡ some (class_of r)) rs
  pub came :
      (g d : ℕ)
      → get g out ≡ some d
      → (get g classes ≡ some d) ⊎ (any (λ r. generation_of r == g) rs ≡ true)
  pub unseen : (k : ℕ × ℕ) → get k seen ≡ some tt → All (λ r. replica_key r ≢ k) rs
  pub apart : IsApart rs

kept_by_insert :
    (g d h c : ℕ) (classes : Map ℕ ℕ)
    → differs (get h classes) c ≡ false
    → get g classes ≡ some d
    → get g (insert h c classes) ≡ some d
kept_by_insert g d h c classes same e = ground (arith, get-insert h g c classes)

seen_by_insert :
    (k j : ℕ × ℕ) (seen : Set (ℕ × ℕ)) → get k seen ≡ some tt → get k (insert j tt seen) ≡ some tt
seen_by_insert k j seen e = ground (arith, get-insert j k tt seen)

walk_cons :
    (classes : Map ℕ ℕ) (seen : Set (ℕ × ℕ)) (r : ReplicaBindingRecord)
    (rs : List ReplicaBindingRecord) (out : Map ℕ ℕ)
    → get (replica_key r) seen ≡ none
    → differs (get (generation_of r) classes) (class_of r) ≡ false
    → Walked (insert (generation_of r) (class_of r) classes) (insert (replica_key r) tt seen) rs out
    → Walked classes seen (r ∷ rs) out
walk_cons classes seen r rs out free same w = record {
  kept = λ g d e. w.kept g d (kept_by_insert g d (generation_of r) (class_of r) classes same e);
  known = (
    w.kept (generation_of r) (class_of r) (get-insert_self (generation_of r) (class_of r) classes),
    w.known,
  );
  came = λ g d e. elim (w.came g d e) [
    | inl old ↦ ground (arith, get-insert (generation_of r) g (class_of r) classes)
    | inr later ↦ inr (ground arith)
  ];
  unseen = λ k e. (λ same. ground arith, w.unseen k (seen_by_insert k (replica_key r) seen e));
  apart = (w.unseen (replica_key r) (get-insert_self (replica_key r) tt seen), w.apart);
}

pub check_replicas-Walked :
    (p : ShardPlacement) (classes : Map ℕ ℕ) (seen : Set (ℕ × ℕ)) (rs : List ReplicaBindingRecord)
    (out : Map ℕ ℕ)
    → check_replicas p classes seen rs ≡ ok out
    → All (Fits p) rs × Walked classes seen rs out
unfolding check_replicas
check_replicas-Walked p classes seen [] out e = (
  tt,
  record {
    kept = λ g d h. ground arith;
    known = tt;
    came = λ g d h. inl (ground arith);
    unseen = λ k h. tt;
    apart = tt;
  },
)
check_replicas-Walked p classes seen (r ∷ rs) out e =
    let (step, goes, later) =
      >>=-eq-ok (check_replica p classes seen r) (λ next. check_replicas p next.0 next.1 rs) e in
    let (fits, free, same, made) = check_replica-inverse p classes seen r step goes in
    let later' : check_replicas p (insert (generation_of r) (class_of r) classes)
          (insert (replica_key r) tt seen) rs
        ≡ ok out =
      subst (λ x. check_replicas p x.0 x.1 rs ≡ ok out) (sym made) later in
    let (all_fit, w) =
      check_replicas-Walked p (insert (generation_of r) (class_of r) classes)
        (insert (replica_key r) tt seen) rs out later' in
    ((fits, all_fit), walk_cons classes seen r rs out free same w)

abbrev IsUnseen : Set (ℕ × ℕ) → List ReplicaBindingRecord → Type 0
IsUnseen seen rs = All (λ r. get (replica_key r) seen ≡ none) rs

IsUnseen-by_insert :
    (k : ℕ × ℕ) (seen : Set (ℕ × ℕ)) (rs : List ReplicaBindingRecord)
    → IsUnseen seen rs
    → All (λ r. replica_key r ≢ k) rs
    → IsUnseen (insert k tt seen) rs
IsUnseen-by_insert k seen [] h apart = tt
IsUnseen-by_insert k seen (r ∷ rs) h apart =
    let first : get (replica_key r) (insert k tt seen) ≡ none = ground (
      arith,
      get-insert k (replica_key r) tt seen,
      pair_same_iff k (replica_key r),
      h.0,
      apart.0,
    ) in
    (first, IsUnseen-by_insert k seen rs h.1 apart.1)

agrees_by_insert :
    (class_at : ℕ → ℕ) (h c : ℕ) (classes : Map ℕ ℕ)
    → c ≡ class_at h
    → ((g d : ℕ) → get g classes ≡ some d → d ≡ class_at g)
    → (g d : ℕ) → get g (insert h c classes) ≡ some d
    → d ≡ class_at g
agrees_by_insert class_at h c classes u agrees g d e =
    ground (arith, get-insert h g c classes, agrees g d)

same_class :
    (class_at : ℕ → ℕ) (h c : ℕ) (classes : Map ℕ ℕ)
    → c ≡ class_at h
    → ((g d : ℕ) → get g classes ≡ some d → d ≡ class_at g)
    → differs (get h classes) c ≡ false
same_class class_at h c classes u agrees = elim (Option-cases (get h classes)) [
  | inl none_yet ↦ ground arith
  | inr (d, e) ↦ let known = agrees h d e in ground arith
]

-- The loop goes on where the replicas fit, are apart, and have the classes of one assignment.
pub check_replicas_total :
    (p : ShardPlacement) (class_at : ℕ → ℕ) (classes : Map ℕ ℕ) (seen : Set (ℕ × ℕ))
    (rs : List ReplicaBindingRecord)
    → All (Fits p) rs
    → All (λ r. class_of r ≡ class_at (generation_of r)) rs
    → IsApart rs
    → IsUnseen seen rs
    → ((g d : ℕ) → get g classes ≡ some d → d ≡ class_at g)
    → (out : Map ℕ ℕ) × (check_replicas p classes seen rs ≡ ok out)
unfolding check_replicas
check_replicas_total p class_at classes seen [] fits uniform apart free agrees = (classes, refl)
check_replicas_total p class_at classes seen (r ∷ rs) fits uniform apart free agrees =
    let same : differs (get (generation_of r) classes) (class_of r) ≡ false =
      same_class class_at (generation_of r) (class_of r) classes uniform.0 agrees in
    let round = check_replica_goes_on p classes seen r fits.0 free.0 same in
    let (out, rest) =
      check_replicas_total p class_at (insert (generation_of r) (class_of r) classes)
        (insert (replica_key r) tt seen) rs fits.1 uniform.1 apart.1
        (IsUnseen-by_insert (replica_key r) seen rs free.1 apart.0)
        (agrees_by_insert class_at (generation_of r) (class_of r) classes uniform.0 agrees) in
    (out, ground arith)

-- The promise of a placement that is valid: one backend class per generation, the placement's own
-- at the active generation, which has a replica.
pub record IsValid (p : ShardPlacement) : Type 0 where
  pub class_at : ℕ → ℕ
  pub fits : All (Fits p) p.replicas
  pub uniform : All (λ r. class_of r ≡ class_at (generation_of r)) p.replicas
  pub apart : IsApart p.replicas
  pub served : any (λ r. generation_of r == p.active_generation) p.replicas ≡ true
  pub active_class : class_at p.active_generation ≡ p.backend_class.digest

abbrev class_in : Map ℕ ℕ → ℕ → ℕ
class_in classes g = elim (get g classes) [ some d ↦ d | none ↦ 0 ]

in_out :
    (rs : List ReplicaBindingRecord) (out : Map ℕ ℕ)
    → All (λ r. get (generation_of r) out ≡ some (class_of r)) rs
    → All (λ r. class_of r ≡ class_in out (generation_of r)) rs
in_out rs out h =
    All-map (λ r. get (generation_of r) out ≡ some (class_of r))
      (λ r. class_of r ≡ class_in out (generation_of r)) (λ r e. ground arith) rs h

pub validate-IsValid : (p : ShardPlacement) → validate p ≡ ok tt → IsValid p
unfolding validate get
validate-IsValid p e = elim (Result-cases (check_replicas p [] [] p.replicas)) [
  | inl (out, walked) ↦
      let (fits, w) = check_replicas-Walked p [] [] p.replicas out walked in
      let found : get p.active_generation out ≡ some p.backend_class.digest = ground arith in
      record {
        class_at = class_in out;
        fits = fits;
        uniform = in_out p.replicas out w.known;
        apart = w.apart;
        served = elim (w.came p.active_generation p.backend_class.digest found) [
          | inl old ↦ let no_way : ⊥ = cc in absurd no_way
          | inr later ↦ later
        ];
        active_class = ground arith;
      }
  | inr (_, failed) ↦ let no_way : ⊥ = ground arith in absurd no_way
]

IsUnseen-all : (rs : List ReplicaBindingRecord) → IsUnseen [] rs
unfolding get
IsUnseen-all [] = tt
IsUnseen-all (r ∷ rs) = (ground arith, IsUnseen-all rs)

lookup_served :
    (class_at : ℕ → ℕ) (g : ℕ) (rs : List ReplicaBindingRecord) (out : Map ℕ ℕ)
    → any (λ r. generation_of r == g) rs ≡ true
    → All (λ r. get (generation_of r) out ≡ some (class_of r)) rs
    → All (λ r. class_of r ≡ class_at (generation_of r)) rs
    → (get g out ≡ some (class_at g)) × (is_nil rs ≡ false)
lookup_served class_at g [] out s k u = cc
lookup_served class_at g (r ∷ rs) out s k u = elim (Bool-cases (generation_of r == g)) [
  | inl hit ↦ let same : generation_of r ≡ g = ground arith in (ground arith, refl)
  | inr miss ↦ ((lookup_served class_at g rs out (ground arith) k.1 u.1).0, refl)
]

pub IsValid-validate : (p : ShardPlacement) → IsValid p → validate p ≡ ok tt
unfolding validate get
IsValid-validate p v =
    let (out, walked) =
      check_replicas_total p v.class_at [] [] p.replicas v.fits v.uniform v.apart
        (IsUnseen-all p.replicas) (λ g d e. ground arith) in
    let (fits, w) = check_replicas-Walked p [] [] p.replicas out walked in
    let (found, filled) =
      lookup_served v.class_at p.active_generation p.replicas out v.served w.known v.uniform in
    let d = v.active_class in ground arith

-- A placement passes exactly when it is valid.
pub validate_iff : (p : ShardPlacement) → (validate p ≡ ok tt) ↔ IsValid p
validate_iff p = (validate-IsValid p, IsValid-validate p)
