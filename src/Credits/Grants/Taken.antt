-- ===== src/Credits/Grants/Taken.antt =====
-- Use of available credits changes the snapshots by exactly what is used, and nothing else: the
-- recoveries and the locks fall on the same grants as before.
use opod_service_backend.Prelude.{
  ℕ, ◌+◌, ◌-◌, ◌≤◌, ◌≡◌, refl, Bool, true, false, Option, none, some, List, [], ◌∷◌, map, All,
  arith, Amounts, Distinct, ◌≢◌,
}
use opod_service_backend.Database.CreditRows.{LedgerRow}
use opod_service_backend.Credits.Grants.Distinct.{id_of}
use opod_service_backend.Credits.Grants.Walk.{GrantSnapshot, deduct, unspent, walk}

-- A deduction from less, where what is missing was available after it.
deduct-less :
    (b : Bool) (p : Option ℕ) (a t : ℕ) (rs ls : Amounts)
    → t ≤ (deduct b p a rs ls).available
    → deduct b p (a - t) rs ls
      ≡ record (deduct b p a rs ls) { available = (deduct b p a rs ls).available - t }
unfolding deduct
deduct-less b none a t rs ls h = refl
deduct-less true (some p) a t rs ls h = ground arith
deduct-less false (some p) a t rs ls h = ground arith

deduct-le : (b : Bool) (p : Option ℕ) (a : ℕ) (rs ls : Amounts) → (deduct b p a rs ls).available ≤ a
unfolding deduct
deduct-le b none a rs ls = omega arith
deduct-le true (some p) a rs ls = ground arith
deduct-le false (some p) a rs ls = ground arith

unspent-add : (now used t : ℕ) (g : LedgerRow) → unspent now (used + t) g ≡ unspent now used g - t
unspent-add now used t g = ground arith

-- The snapshot after a further use of `taken` of its grant.
abbrev pub less : (ℕ → ℕ) → GrantSnapshot → GrantSnapshot
less taken s = record s { available = s.available - taken s.grant.id }

pub walk-less :
    (b : Bool) (now : ℕ) (used taken : ℕ → ℕ) (gs : List LedgerRow) (rs ls : Amounts)
    → All (λ s. taken s.grant.id ≤ s.available) (walk b now used gs rs ls).0
    → walk b now (λ i. used i + taken i) gs rs ls
      ≡ (map (less taken) (walk b now used gs rs ls).0, (walk b now used gs rs ls).1)
unfolding walk
walk-less b now used taken [] rs ls h = refl
walk-less b now used taken (g ∷ gs) rs ls h =
    let a = unspent now (used g.id) g in
    let d = deduct b g.purchase_id a rs ls in
    rw (
      unspent-add now (used g.id) (taken g.id) g,
      deduct-less b g.purchase_id a (taken g.id) rs ls h.0,
      walk-less b now used taken gs d.recoveries d.locks h.1,
    )

-- The snapshots are of the grants walked over.
pub walk-grants :
    (P : LedgerRow → Type 0) (b : Bool) (now : ℕ) (used : ℕ → ℕ) (gs : List LedgerRow)
    (rs ls : Amounts)
    → All P gs
    → All (λ s. P s.grant) (walk b now used gs rs ls).0
unfolding walk
walk-grants P b now used [] rs ls h = tt
walk-grants P b now used (g ∷ gs) rs ls h =
    let d = deduct b g.purchase_id (unspent now (used g.id) g) rs ls in
    (h.0, walk-grants P b now used gs d.recoveries d.locks h.1)

abbrev pub grant_id : GrantSnapshot → ℕ
grant_id s = s.grant.id

pub walk-Distinct :
    (b : Bool) (now : ℕ) (used : ℕ → ℕ) (gs : List LedgerRow) (rs ls : Amounts)
    → Distinct id_of gs
    → Distinct grant_id (walk b now used gs rs ls).0
unfolding walk
walk-Distinct b now used [] rs ls h = tt
walk-Distinct b now used (g ∷ gs) rs ls h =
    let d = deduct b g.purchase_id (unspent now (used g.id) g) rs ls in
    (
      walk-grants (λ r. r.id ≢ g.id) b now used gs d.recoveries d.locks h.0,
      walk-Distinct b now used gs d.recoveries d.locks h.1,
    )

-- What is available of a grant is at most what expiry and use leave of it.
pub walk-le-unspent :
    (b : Bool) (now : ℕ) (used : ℕ → ℕ) (gs : List LedgerRow) (rs ls : Amounts)
    → All (λ s. s.available ≤ unspent now (used s.grant.id) s.grant) (walk b now used gs rs ls).0
unfolding walk
walk-le-unspent b now used [] rs ls = tt
walk-le-unspent b now used (g ∷ gs) rs ls =
    let a = unspent now (used g.id) g in
    let d = deduct b g.purchase_id a rs ls in
    (deduct-le b g.purchase_id a rs ls, walk-le-unspent b now used gs d.recoveries d.locks)

-- What holds of every snapshot's grant holds of every grant walked over.
pub All-walk :
    (P : LedgerRow → Type 0) (b : Bool) (now : ℕ) (used : ℕ → ℕ) (gs : List LedgerRow)
    (rs ls : Amounts)
    → All (λ s. P s.grant) (walk b now used gs rs ls).0
    → All P gs
unfolding walk
All-walk P b now used [] rs ls h = tt
All-walk P b now used (g ∷ gs) rs ls h =
    let d = deduct b g.purchase_id (unspent now (used g.id) g) rs ls in
    (h.0, All-walk P b now used gs d.recoveries d.locks h.1)
