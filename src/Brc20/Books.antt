-- ===== src/Brc20/Books.antt =====
-- The books of the BRC-20 tokens: what the tables must agree on.
pub mod Credits
pub mod Effects
pub mod Mints
pub mod Deploys
pub mod Inscribes
pub mod Burns
pub mod Withdrawals
pub mod Transfers
pub mod Process
use okx_ord.Common.{
  ℕ, ◌+◌, ◌≤◌, ◌≡◌, refl, List, [], ◌∷◌, Option, none, some, Bool, true, false, ◌==◌, ◌⊎◌,
  if◌then◌else◌, arith, All, Bool-cases, inl, inr, ==_iff, unwrap_or, Option-cases, ap, ◌∙◌,
}
use okx_ord.Common.Dict.{Dict, lookup, insert, remove, lookup-insert}
use okx_ord.Common.Outcome.{u128_max}
use okx_ord.Brc20.External.{External, ScriptKey}
use okx_ord.Brc20.Types.{
  Tick, Balance, TokenInfo, TransferableLog, Brc20Error, Result, ok, err, new_balance,
}
use okx_ord.Brc20.Store.{Context, Ran, ran, tick_key, script_tick_key, get_balance}
use okx_ord.Brc20.Store.Pairs.{
  PairDict, is_key, lookup_pair, insert_pair_key, sum_of, measure_at, lookup_pair-insert_pair_key,
  measure_at-eq,
}

abbrev pub overall : Balance → ℕ
overall b = b.overall_balance

abbrev pub transferable : Balance → ℕ
transferable b = b.transferable_balance

abbrev pub minted_of : ℕ → Dict TokenInfo → ℕ
minted_of t tokens = elim (lookup t tokens) [ none ↦ 0 | some i ↦ i.minted ]

abbrev pub burned_of : ℕ → Dict TokenInfo → ℕ
burned_of t tokens = elim (lookup t tokens) [ none ↦ 0 | some i ↦ i.burned_supply ]

abbrev pub IsCapped : ℕ × TokenInfo → Type 0
IsCapped e = (e.1.minted ≤ e.1.supply) × (e.1.supply ≤ u128_max)

module _ {ℓ} {V : Type ℓ} where
  pub All-lookup :
      (P : ℕ × V → Type 0) (k : ℕ) (v : V) (d : Dict V) → All P d → lookup k d ≡ some v → P (k, v)
  unfolding lookup
  All-lookup P k v [] h e = absurd (let f = e in cc)
  All-lookup P k v ((j, w) ∷ d) h e = elim (Bool-cases (k == j)) [
    | inl same ↦
        let q : k ≡ j = (==_iff k j).0 same in let f : w ≡ v = ground arith in rw q (rw f at h.0)
    | inr other ↦ All-lookup P k v d h.1 (rw other at e)
  ]

  pub All-insert :
      (P : ℕ × V → Type 0) (k : ℕ) (v : V) (d : Dict V) → All P d → P (k, v) → All P (insert k v d)
  unfolding insert
  All-insert P k v [] h p = (p, tt)
  All-insert P k v ((j, w) ∷ d) h p = elim (Bool-cases (k == j)) [
    | inl same ↦ rw same (p, h.1)
    | inr other ↦ rw other (h.0, All-insert P k v d h.1 p)
  ]

module _ (x : External) where
  -- The amounts in the transfers that an owner has inscribed for a tick.
  unfoldable pub logged : ℕ × ℕ → Dict TransferableLog → ℕ
  logged k [] = 0
  logged k ((s, a) ∷ d) =
      (if is_key k (script_tick_key x a.owner a.tick) then a.amount else 0) + logged k d

  pub logged-insert :
      (k : ℕ × ℕ) (s : ℕ) (a : TransferableLog) (d : Dict TransferableLog)
      → lookup s d ≡ none
      → logged k (insert s a d)
        ≡ logged k d + (if is_key k (script_tick_key x a.owner a.tick) then a.amount else 0)
  unfolding lookup insert logged
  logged-insert k s a [] h = omega arith
  logged-insert k s a ((t, b) ∷ d) h = ground (arith, logged-insert k s a d)

  pub logged-remove :
      (k : ℕ × ℕ) (s : ℕ) (a : TransferableLog) (d : Dict TransferableLog)
      → lookup s d ≡ some a
      → logged k (remove s d)
          + (if is_key k (script_tick_key x a.owner a.tick) then a.amount else 0)
        ≡ logged k d
  unfolding lookup remove logged
  logged-remove k s a [] h = cc
  logged-remove k s a ((t, b) ∷ d) h = elim (Bool-cases (s == t)) [
    | inl same ↦ let f : b ≡ a = ground arith in rw (same, f) (omega arith)
    | inr other ↦ rw other (omega (arith, logged-remove k s a d (rw other at h)))
  ]

  -- The key of an entry is that of its tick.
  unfoldable pub BalanceKeys : PairDict Balance → Type 0
  BalanceKeys [] = Unit
  BalanceKeys ((k, b) ∷ d) = (tick_key x b.tick ≡ k.1) × BalanceKeys d

  pub insert-BalanceKeys :
      (k : ℕ × ℕ) (b : Balance) (d : PairDict Balance)
      → tick_key x b.tick ≡ k.1
      → BalanceKeys d
      → BalanceKeys (insert_pair_key k b d)
  unfolding BalanceKeys insert_pair_key
  insert-BalanceKeys k b [] e h = (e, tt)
  insert-BalanceKeys k b ((j, w) ∷ d) e h = elim (Bool-cases (is_key k j)) [
    | inl same ↦ rw same (e, h.1)
    | inr other ↦ rw other (h.0, insert-BalanceKeys k b d e h.1)
  ]

  lookup-BalanceKeys :
      (k : ℕ × ℕ) (b : Balance) (d : PairDict Balance)
      → BalanceKeys d
      → lookup_pair k d ≡ some b
      → tick_key x b.tick ≡ k.1
  unfolding BalanceKeys lookup_pair
  lookup-BalanceKeys k b [] h e = cc
  lookup-BalanceKeys k b ((j, w) ∷ d) h e = elim (Bool-cases (is_key k j)) [
    | inl same ↦ let f : w ≡ b = ground arith in let g = rw f at h.0 in ground arith
    | inr other ↦ lookup-BalanceKeys k b d h.1 (rw other at e)
  ]

  -- For every tick the balances add up to what is minted; for every owner and tick the transferable
  -- balance is what the inscribed transfers say, and it is within the overall balance; no more is
  -- minted than the supply, which fits a u128; and every entry is under the key of its tick.
  pub record IsBooked (c : Context) : Type 0 where
    pub sums : (t : ℕ) → sum_of overall t c.balances ≡ minted_of t c.tokens
    pub held : (k : ℕ × ℕ) → measure_at transferable k c.balances ≡ logged k c.satpoint_to_assets
    pub cover : (k : ℕ × ℕ) → measure_at transferable k c.balances ≤ measure_at overall k c.balances
    pub caps : All IsCapped c.tokens
    pub balance_keys : BalanceKeys c.balances
    pub token_keys : All (λ (e : ℕ × TokenInfo). tick_key x e.1.tick ≡ e.0) c.tokens

  -- A handler fails and leaves the context as it was, or it succeeds.
  abbrev pub Handled {ℓ} : {A : Type ℓ} → Context → Ran A → (Context → A → Type 0) → Type ℓ
  Handled c o Good =
      ((e : Brc20Error) × (o ≡ ran c (err e)))
      ⊎ ((c' : Context) × (a : _) × (o ≡ ran c' (ok a)) × Good c' a)

  -- The balance that a handler reads, or the new one.
  pub balance_read :
      (c : Context) (script : ScriptKey) (tick : Tick) (b : Balance)
      → BalanceKeys c.balances
      → b ≡ unwrap_or (get_balance x c script tick) (new_balance tick)
      → (tick_key x b.tick ≡ tick_key x tick)
        × (measure_at overall (script_tick_key x script tick) c.balances ≡ b.overall_balance)
        × (measure_at transferable (script_tick_key x script tick) c.balances
            ≡ b.transferable_balance)
  balance_read c script tick b keys e =
      let k = script_tick_key x script tick in
      elim (Option-cases (lookup_pair k c.balances)) [
        | inl none_there ↦ (
          rw (e, none_there) refl,
          measure_at-eq overall k c.balances none_there ∙ rw (e, none_there) refl,
          measure_at-eq transferable k c.balances none_there ∙ rw (e, none_there) refl,
        )
        | inr (found, there) ↦ (
          rw (e, there) (lookup-BalanceKeys k found c.balances keys there),
          measure_at-eq overall k c.balances there ∙ rw (e, there) refl,
          measure_at-eq transferable k c.balances there ∙ rw (e, there) refl,
        )
      ]
