-- ===== src/Runes/Conserve/Naming.antt =====
-- The name of an etching in src/index/updater/rune_updater.rs: when it is refused, and what it is.
use okx_ord.Common.{
  ℕ, ◌+◌, ◌≤◌, ◌<◌, ◌≡◌, refl, Option, none, some, Bool, true, leb, arith, unwrap_or, Option-cases,
  inl, inr, ◌⊎◌, false,
}
use okx_ord.Common.Dict.{Dict, lookup, insert}
use okx_ord.Common.Outcome.{done, add_checked_fits, u64_max, u128_max}
use okx_ord.Runes.Types.{reserved}
use okx_ord.Runes.Updater.State.{RuneUpdater}
use okx_ord.Runes.Updater.Etch.{is_rejected, is_reserved, name_rune, reserved_runes}

-- An etching is refused for a name that is too short, reserved or taken.
abbrev pub IsRefused : RuneUpdater → Option ℕ → Type 0
IsRefused s none = ⊥
IsRefused s (some name) =
    (name < s.minimum) ⊎ (reserved ≤ name) ⊎ ((id : ℕ) × (lookup name s.rune_to_id ≡ some id))

-- The name of a new rune, and the counts after it: the name that is asked for, which is long enough,
-- not reserved and free; or the next reserved one, which is counted.
abbrev pub IsNamed : RuneUpdater → Option ℕ → ℕ → Dict ℕ → Type 0
IsNamed s (some asked) name stats =
    (name ≡ asked)
    × (s.minimum ≤ asked)
    × (asked < reserved)
    × (lookup asked s.rune_to_id ≡ none)
    × (stats ≡ s.statistic_to_count)
IsNamed s none name stats =
    let taken = unwrap_or (lookup reserved_runes s.statistic_to_count) 0 in
    (name ≡ reserved + taken) × (stats ≡ insert reserved_runes (taken + 1) s.statistic_to_count)

pub is_rejected-IsRefused :
    (s : RuneUpdater) (rune : Option ℕ) → is_rejected s rune ≡ true → IsRefused s rune
unfolding is_rejected is_reserved
is_rejected-IsRefused s none h = absurd (ground arith)
is_rejected-IsRefused s (some name) h = elim (Option-cases (lookup name s.rune_to_id)) [
  | inr taken ↦ inr (inr taken)
  | inl free ↦ ground arith
]

pub name_rune_lem :
    (checks : Bool) (s : RuneUpdater) (rune : Option ℕ)
    → is_rejected s rune ≡ false
    → unwrap_or (lookup reserved_runes s.statistic_to_count) 0 < u64_max
    → (stats : Dict ℕ) × (r : ℕ) × (name_rune checks s rune
        ≡ done (record s { statistic_to_count = stats }, r))
      × IsNamed s rune r stats
unfolding name_rune is_rejected is_reserved
name_rune_lem checks s (some r) free h = elim (Option-cases (lookup r s.rune_to_id)) [
  | inl there ↦ (s.statistic_to_count, r, refl, (refl, ground arith, ground arith, there, refl))
  | inr (id, taken) ↦ absurd (ground arith)
]
name_rune_lem checks s none free h =
    let taken = unwrap_or (lookup reserved_runes s.statistic_to_count) 0 in
    let small : leb (reserved + taken) u128_max ≡ true = ground arith in
    (
      insert reserved_runes (taken + 1) s.statistic_to_count,
      reserved + taken,
      rw (add_checked_fits checks u64_max taken 1 (omega arith), small) refl,
      (refl, refl),
    )
