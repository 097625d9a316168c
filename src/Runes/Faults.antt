-- ===== src/Runes/Faults.antt =====
-- Where the updater of runes panics or leaves the range of its numbers.
use okx_ord.Common.{
  ℕ, ◌+◌, ◌-◌, ◌≤◌, ◌<◌, ◌≡◌, refl, List, some, Bool, true, false, ltb, leb, sym, none, unwrap_or,
  ◌^◌, ◌==◌, ◌&&◌, ◌||◌, length, is_some, arith, Bool-cases, Option-cases, inl, inr,
}
use okx_ord.Common.Outcome.{
  Outcome, done, panic, div_checked, add_checked, u16_max, u32_max, u64_max,
}
use okx_ord.Common.Dict.{lookup}
use okx_ord.Runes.Types.{Edict, Etching, RuneEntry}
use okx_ord.Runes.RuneId.RoundTrip.{store_rune_id-try_from, u128_from_lem}
use okx_ord.Runes.Updater.State.{RuneUpdater}
use okx_ord.Runes.Updater.Etch.{Allocation, etch, is_rejected, mint_end, reserved_runes}
use okx_ord.Runes.Updater.Mints.{mint_limit}
use okx_ord.Runes.Conserve.Etching.{new_id, issue_of}
use okx_ord.Runes.Conserve.Naming.{name_rune_lem}
use okx_ord.Runes.Updater.Edicts.{Pools, apply_edict, borrow, destinations, pay, spread}
use okx_ord.Runes.Conserve.Edicts.{apply_edict-Keeps}
use okx_ord.Runes.Conserve.Pools.{IsValid, Fits, CanSplit}

abbrev pub is_panic {ℓ} : {A : Type ℓ} → Outcome A → Bool
is_panic (done a) = false
is_panic panic = true

-- The edict names all destinations, asks for an even split, and there is none to split between.
abbrev pub splits_between_none : List Bool → Edict → Bool
splits_between_none outputs edict =
    edict.output == length outputs && edict.amount == 0 && length (destinations 0 outputs) == 0

no_output-panics :
    (checks : Bool) (outputs : List Bool) (edict : Edict) (p : Pools)
    → length outputs ≤ u64_max
    → splits_between_none outputs edict ≡ true
    → is_panic (apply_edict checks outputs edict p) ≡ is_some (borrow edict.id p)
unfolding apply_edict pay spread div_checked
no_output-panics checks outputs edict p small none_there =
    let at_end : (edict.output == length outputs) ≡ true = ground arith in
    let even : (edict.amount == 0) ≡ true = ground arith in
    let empty : (length (destinations 0 outputs) == 0) ≡ true = ground arith in
    let in_range : (ltb u64_max edict.output || ltb (length outputs) edict.output) ≡ false =
      ground arith in
    elim (Option-cases (borrow edict.id p)) [
      | inl e ↦ rw (in_range, e) refl
      | inr (loan, e) ↦ rw (in_range, e, at_end, even, empty) refl
    ]

-- For pools that are valid and whose sums fit a u128, and for at most 2^64 - 1 outputs, an edict
-- panics exactly if it draws on a pool that is there, names all destinations, has the amount zero,
-- and every output of the transaction is an OP_RETURN.
pub apply_edict-panics :
    (checks : Bool) (outputs : List Bool) (edict : Edict) (p : Pools)
    → length outputs ≤ u64_max
    → Fits p
    → IsValid outputs p
    → is_panic (apply_edict checks outputs edict p)
      ≡ (splits_between_none outputs edict && is_some (borrow edict.id p))
apply_edict-panics checks outputs edict p small fits valid =
    elim (Bool-cases (splits_between_none outputs edict)) [
      | inl empty ↦ rw empty (no_output-panics checks outputs edict p small empty)
      | inr other ↦
          let (p', e, keeps) = apply_edict-Keeps checks outputs edict p (can other) fits valid in
          rw (e, other) refl
    ]
  where
    can : splits_between_none outputs edict ≡ false → CanSplit outputs edict
    can other at_end even = ground arith

add_checked-panics : (a b : ℕ) → u32_max < a + b → add_checked true u32_max a b ≡ panic
unfolding add_checked
add_checked-panics a b over = ground arith

add_checked-wraps :
    (a b : ℕ)
    → a ≤ u32_max
    → b ≤ u32_max
    → u32_max < a + b
    → add_checked false u32_max a b ≡ done (a + b - (u32_max + 1))
unfolding add_checked
add_checked-wraps a b ha hb over = ground arith

mint_limit-none :
    (t : RuneUpdater) (id end : ℕ) (entry : RuneEntry)
    → id < 2 ^ 48
    → lookup id t.id_to_entry ≡ some entry
    → entry.end ≡ some end
    → end ≤ t.height
    → mint_limit t id ≡ none
unfolding mint_limit
mint_limit-none t id end entry small there ends passed =
    let (key, e, same) = store_rune_id-try_from id small in
    let over : leb end t.height ≡ true = ground arith in
    elim (Option-cases entry.limit) [
      | inl none_left ↦ rw (e, same, there, none_left) refl
      | inr (limit, left) ↦ rw (e, same, there, left, ends, over) refl
    ]

-- Let a term and a height that fit a u32 have a sum that does not, and let an etching with this term
-- have a name that is not refused and an index that fits a u16. A build that checks its arithmetic
-- panics on it. A build that does not makes an allocation that ends at the sum less 2^32; at every
-- height from the etching's on, at which the rune has an entry with this end, its mint is closed.
pub etch-overflow :
    (s t : RuneUpdater) (index term : ℕ) (e : Etching) (entry : RuneEntry)
    → s.height ≤ u32_max
    → index ≤ u16_max
    → e.term ≡ some term
    → term ≤ u32_max
    → u32_max < term + s.height
    → is_rejected s e.rune ≡ false
    → unwrap_or (lookup reserved_runes s.statistic_to_count) 0 < u64_max
    → s.height ≤ t.height
    → lookup (new_id s index) t.id_to_entry ≡ some entry
    → entry.end ≡ some (term + s.height - (u32_max + 1))
    → (etch true s index e ≡ panic)
      × ((s' : RuneUpdater) × (a : Allocation) × (etch false s index e ≡ done (s', some a))
          × (a.id ≡ new_id s index)
          × (a.end ≡ entry.end)
          × (mint_limit t a.id ≡ none))
unfolding etch mint_end
etch-overflow s t index term e entry hh hi asked ht over free room later there ends =
    let (stats, name, run, named) = name_rune_lem true s e.rune free room in
    let (stats', name', run', named') = name_rune_lem false s e.rune free room in
    let inside : leb index u16_max ≡ true = ground arith in
    let wrapped = term + s.height - (u32_max + 1) in
    let id = u128_from_lem (record { height = s.height; index = index }) hi in
    (
      rw (free, run, inside, asked, add_checked-panics term s.height over) refl,
      (
        record s { statistic_to_count = stats' },
        issue_of s index e name' (some wrapped),
        rw (free, run', inside, asked, add_checked-wraps term s.height ht hh over) refl,
        id,
        sym ends,
        rw id (
            mint_limit-none t (new_id s index) wrapped entry (omega arith) there ends
              (omega arith)),
      ),
    )
