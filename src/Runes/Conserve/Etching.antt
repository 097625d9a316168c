-- ===== src/Runes/Conserve/Etching.antt =====
-- The match on the etching in src/index/updater/rune_updater.rs.
use okx_ord.Common.{
  ℕ, ◌+◌, ◌-◌, ◌*◌, ◌^◌, ◌≤◌, ◌<◌, ◌≡◌, refl, Option, none, some, Bool, true, leb, arith, unwrap_or,
  Bool-cases, sym, inl, inr, ◌⊎◌,
}
use mathlib.Core.Path.{subst}
use okx_ord.Common.Dict.{Dict, lookup}
use okx_ord.Common.Outcome.{done, add_checked_fits, u16_max, u32_max, u64_max, u128_max}
use okx_ord.Runes.Types.{Etching, max_limit}
use okx_ord.Runes.RuneId.{u128_from}
use okx_ord.Runes.RuneId.RoundTrip.{u128_from_lem}
use okx_ord.Runes.Updater.State.{RuneUpdater}
use okx_ord.Runes.Conserve.Naming.{IsRefused, IsNamed, is_rejected-IsRefused, name_rune_lem}
use okx_ord.Runes.Updater.Etch.{
  Allocation, etch, is_rejected, effective_limit, initial_balance, mint_end, issued, reserved_runes,
}

abbrev pub AtMost : ℕ → Option ℕ → Type 0
AtMost bound none = Unit
AtMost bound (some v) = v ≤ bound

-- The id of a rune that is etched in a transaction of this block.
abbrev pub new_id : RuneUpdater → ℕ → ℕ
new_id s index = s.height * 2 ^ 16 + index

-- The numbers of an etching have their types' widths, and the counters have room for one more.
pub record CanEtch (s : RuneUpdater) (e : Etching) : Type 0 where
  pub limit : AtMost u128_max e.limit
  pub term : AtMost (u32_max - s.height) e.term
  pub reserved_room : unwrap_or (lookup reserved_runes s.statistic_to_count) 0 < u64_max

abbrev pub IsIssue : RuneUpdater → ℕ → Option Allocation → Type 0
IsIssue s index none = Unit
IsIssue s index (some a) =
    (a.id ≡ new_id s index)
    × (a.balance ≡ issued s.height a.limit a.end)
    × (a.balance ≤ u128_max)
    × (index ≤ u16_max)

pub record Keeps (s : RuneUpdater) (index : ℕ) (s' : RuneUpdater) (o : Option Allocation)
    : Type 0 where
  pub entries : s'.id_to_entry ≡ s.id_to_entry
  pub updates : s'.updates ≡ s.updates
  pub table : s'.outpoint_to_balances ≡ s.outpoint_to_balances
  pub height : s'.height ≡ s.height
  pub timestamp : s'.timestamp ≡ s.timestamp
  pub runes : s'.runes ≡ s.runes
  pub issue : IsIssue s index o

-- The end of a mint that is open for a term from this height on.
abbrev pub end_after : ℕ → Option ℕ → Option ℕ
end_after height none = none
end_after height (some term) = some (term + height)

-- The limit of a mint is the one that is asked for; a mint with a term but no limit has the greatest one.
abbrev pub limit_for : Option ℕ → Option ℕ → Option ℕ
limit_for (some limit) term = some limit
limit_for none none = none
limit_for none (some term) = some max_limit

-- A transaction past the 65535th of its block makes no allocation; one before it makes an allocation
-- with the fields of the etching.
abbrev pub IsAllocated : RuneUpdater → ℕ → Etching → ℕ → Option Allocation → Type 0
IsAllocated s index e name none = u16_max < index
IsAllocated s index e name (some a) =
    IsIssue s index (some a)
    × (a.rune ≡ name)
    × (a.end ≡ end_after s.height e.term)
    × (a.limit ≡ limit_for e.limit e.term)
    × (a.deadline ≡ e.deadline)
    × (a.divisibility ≡ e.divisibility)
    × (a.spacers ≡ e.spacers)
    × (a.symbol ≡ e.symbol)

abbrev pub Etched : RuneUpdater → ℕ → Etching → RuneUpdater × Option Allocation → Type 0
Etched s index e r =
    (IsRefused s e.rune × (r ≡ (s, none)))
    ⊎ ((stats : Dict ℕ) × (name : ℕ) × IsNamed s e.rune name stats
        × (r.0 ≡ record s { statistic_to_count = stats })
        × IsAllocated s index e name r.1)

effective_limit_lem : (limit term : Option ℕ) → effective_limit limit term ≡ limit_for limit term
effective_limit_lem (some limit) term = refl
effective_limit_lem none none = refl
effective_limit_lem none (some term) = refl

mint_end_lem :
    (checks : Bool) (term : Option ℕ) (height : ℕ)
    → height ≤ u32_max
    → AtMost (u32_max - height) term
    → (mint_end checks term height ≡ done (end_after height term))
      × ((limit : Option ℕ)
          → initial_balance (effective_limit limit term) term
            ≡ issued height (effective_limit limit term) (end_after height term))
unfolding mint_end
mint_end_lem checks none height hh h = (refl, λ limit. no_term limit)
  where
    no_term :
        (limit : Option ℕ)
        → initial_balance (effective_limit limit none) none
          ≡ issued height (effective_limit limit none) none
    no_term none = unfold initial_balance issued in refl
    no_term (some l) = unfold initial_balance issued in refl
mint_end_lem checks (some term) height hh h =
    (rw (add_checked_fits checks u32_max term height (omega arith)) refl, λ limit. with_term limit)
  where
    with_term :
        (limit : Option ℕ)
        → initial_balance (effective_limit limit (some term)) (some term)
          ≡ issued height (effective_limit limit (some term)) (some (term + height))
    with_term none = unfold initial_balance issued in ground arith
    with_term (some l) = unfold initial_balance issued in ground arith

initial_balance-le :
    (limit term : Option ℕ)
    → AtMost u128_max limit
    → initial_balance (effective_limit limit term) term ≤ u128_max
unfolding initial_balance
initial_balance-le none none h = omega arith
initial_balance-le none (some term) h = ground arith
initial_balance-le (some limit) none h = h
initial_balance-le (some limit) (some term) h = ground arith

abbrev pub issue_of : RuneUpdater → ℕ → Etching → ℕ → Option ℕ → Allocation
issue_of s index e rune end = record {
  balance = initial_balance (effective_limit e.limit e.term) e.term;
  deadline = e.deadline;
  divisibility = e.divisibility;
  end = end;
  id = u128_from (record { height = s.height; index = index });
  limit = effective_limit e.limit e.term;
  rune = rune;
  spacers = e.spacers;
  symbol = e.symbol;
}

only_counted :
    (s : RuneUpdater) (stats : Dict ℕ) (index : ℕ) (o : Option Allocation)
    → IsIssue s index o
    → Keeps s index (record s { statistic_to_count = stats }) o
only_counted s stats index o i = record {
  entries = refl;
  updates = refl;
  table = refl;
  height = refl;
  timestamp = refl;
  runes = refl;
  issue = i;
}

-- Let the height fit a u32, and let the etching's limit, its term with the height, and the count
-- of reserved runes fit their types. Then the match on the etching returns. Either its name is below
-- the least one that may be etched, reserved or taken, and then nothing changes and there is no
-- allocation. Or the name is none of these, or it is the next reserved one, which is counted; nothing
-- else of the state changes. Then there is no allocation exactly if the index exceeds a u16, and else
-- the allocation has the etching's fields, the id of the height and the index, the end of the term, and
-- a balance that is the issue of its limit and its end and fits a u128.
pub etch-Etched :
    (checks : Bool) (s : RuneUpdater) (index : ℕ) (e : Etching)
    → s.height ≤ u32_max
    → CanEtch s e
    → (r : RuneUpdater × Option Allocation) × (etch checks s index e ≡ done r) × Etched s index e r
unfolding etch
etch-Etched checks s index e hh can = elim (Bool-cases (is_rejected s e.rune)) [
  | inl rejected ↦
      ((s, none), rw rejected refl, inl (is_rejected-IsRefused s e.rune rejected, refl))
  | inr accepted ↦
      let (stats, name, run, named) = name_rune_lem checks s e.rune accepted can.reserved_room in
      elim (Bool-cases (leb index u16_max)) [
        | inr outside ↦ (
          (record s { statistic_to_count = stats }, none),
          rw (accepted, run, outside) refl,
          inr (stats, name, named, refl, ground arith),
        )
        | inl inside ↦
            let (ended, balanced) = mint_end_lem checks e.term s.height hh can.term in
            (
              (
                record s { statistic_to_count = stats },
                some (issue_of s index e name (end_after s.height e.term)),
              ),
              rw (accepted, run, inside, ended) refl,
              inr (stats, name, named, refl, issue_of-IsAllocated inside balanced),
            )
      ]
]
  where
    issue_of-IsAllocated :
        {name : ℕ}
        → leb index u16_max ≡ true
        → ((limit : Option ℕ)
            → initial_balance (effective_limit limit e.term) e.term
              ≡ issued s.height (effective_limit limit e.term) (end_after s.height e.term))
        → IsAllocated s index e name (some (issue_of s index e name (end_after s.height e.term)))
    issue_of-IsAllocated inside balanced = (
      (
        u128_from_lem (record { height = s.height; index = index }) (ground arith),
        balanced e.limit,
        initial_balance-le e.limit e.term can.limit,
        ground arith,
      ),
      refl,
      refl,
      effective_limit_lem e.limit e.term,
      refl,
      refl,
      refl,
      refl,
    )

-- Whether it makes an allocation or not, the match on the etching leaves what is kept of runes.
pub etch-Keeps :
    (checks : Bool) (s : RuneUpdater) (index : ℕ) (e : Etching)
    → s.height ≤ u32_max
    → CanEtch s e
    → (r : RuneUpdater × Option Allocation) × (etch checks s index e ≡ done r)
      × Keeps s index r.0 r.1
etch-Keeps checks s index e hh can =
    let (r, run, made) = etch-Etched checks s index e hh can in (r, run, kept r made)
  where
    kept : (r : RuneUpdater × Option Allocation) → Etched s index e r → Keeps s index r.0 r.1
    kept r (inl (why, same)) =
        subst (λ x. Keeps s index x.0 x.1) (sym same)
          (only_counted s s.statistic_to_count index none tt)
    kept (s', none) (inr (stats, name, named, same, made)) =
        rw same (only_counted s stats index none tt)
    kept (s', some a) (inr (stats, name, named, same, made)) =
        rw same (only_counted s stats index (some a) made.0)
