-- ===== src/Brc20/Books/Burns.antt =====
-- What a burn does to the tokens.
use okx_ord.Common.{
  ℕ, ◌+◌, ◌≤◌, ◌≡◌, refl, ◌∙◌, sym, ap, Option, none, some, Bool, true, false, ◌==◌, ◌&&◌,
  if◌then◌else◌, arith, All, inl, inr, Bool-cases, ==_iff,
}
use okx_ord.Common.Dict.{Dict, lookup, insert, lookup-insert}
use okx_ord.Common.Outcome.{u128_max}
use okx_ord.Brc20.External.{External, IsExact}
use okx_ord.Brc20.Types.{Tick, TokenInfo, ok}
use okx_ord.Brc20.Exact.{sum_u128-fits}
use okx_ord.Brc20.Store.{Context, ran, tick_key, get_token_info, update_burned_token_info}
use okx_ord.Brc20.Execute.{burn_if}
use okx_ord.Brc20.Books.{minted_of, burned_of, IsCapped, All-lookup, All-insert}
use okx_ord.Brc20.Books.Mints.{minted_of-some, minted_of-insert}

pub burned_of-insert :
    (t key : ℕ) (i : TokenInfo) (d : Dict TokenInfo)
    → burned_of t (insert key i d) ≡ (if t == key then i.burned_supply else burned_of t d)
burned_of-insert t key i d = ground (arith, lookup-insert key t i d)

pub burned_of-some :
    (t : ℕ) (d : Dict TokenInfo) {i : TokenInfo}
    → lookup t d ≡ some i
    → burned_of t d ≡ i.burned_supply
burned_of-some t d e =
    ap (λ (o : Option TokenInfo). elim o [ none ↦ 0 | some i ↦ i.burned_supply ]) e

abbrev pub burned_info : TokenInfo → ℕ → TokenInfo
burned_info info n = record info { burned_supply = info.burned_supply + n }

abbrev pub after_burn : Bool → ℕ → TokenInfo → ℕ → Dict TokenInfo → Dict TokenInfo
after_burn false key info n tokens = tokens
after_burn true key info n tokens = insert key (burned_info info n) tokens

module _ (x : External) where
  -- What a burn leaves as it was, and what it adds.
  pub record Burned (op_return : Bool) (key : ℕ) (n : ℕ) (d d' : Dict TokenInfo) : Type 0 where
    pub minted_same : (t : ℕ) → minted_of t d' ≡ minted_of t d
    pub burned : (t : ℕ) → burned_of t d' ≡ burned_of t d + (if op_return && t == key then n else 0)
    pub caps : All IsCapped d'
    pub token_keys : All (λ (e : ℕ × TokenInfo). tick_key x e.1.tick ≡ e.0) d'

  pub after_burn-Burned :
      (op_return : Bool) (key : ℕ) (info : TokenInfo) (n : ℕ) (d : Dict TokenInfo)
      → lookup key d ≡ some info
      → All IsCapped d
      → All (λ (e : ℕ × TokenInfo). tick_key x e.1.tick ≡ e.0) d
      → Burned op_return key n d (after_burn op_return key info n d)
  after_burn-Burned false key info n d there caps keys = record {
    minted_same = λ t. refl;
    burned = λ t. omega arith;
    caps = caps;
    token_keys = keys;
  }
  after_burn-Burned true key info n d there caps keys =
      let was_minted = minted_of-some key d there in
      let was_burned = burned_of-some key d there in
      record {
        minted_same = λ t.
            minted_of-insert t key (burned_info info n) d ∙ elim (Bool-cases (t == key)) [
              | inl same ↦ let q : t ≡ key = (==_iff t key).0 same in rw (same, q) (sym was_minted)
              | inr other ↦ rw other refl
            ];
        burned = λ t. burned_of-insert t key (burned_info info n) d ∙ elim (Bool-cases (t == key)) [
          | inl same ↦
              let q : t ≡ key = (==_iff t key).0 same in rw (same, q) (omega (arith, was_burned))
          | inr other ↦ rw other (omega arith)
        ];
        caps =
            All-insert IsCapped key (burned_info info n) d caps
              (All-lookup IsCapped key info d caps there);
        token_keys =
            All-insert (λ (e : ℕ × TokenInfo). tick_key x e.1.tick ≡ e.0) key (burned_info info n) d
              keys
              (All-lookup (λ (e : ℕ × TokenInfo). tick_key x e.1.tick ≡ e.0) key info d keys there);
      }

module _ (x : External) (exact : IsExact x) where
  pub burn_if-runs :
      (op_return : Bool) (tick : Tick) (info : TokenInfo) (n : ℕ) (c : Context)
      → get_token_info x c tick ≡ some info
      → info.burned_supply + n ≤ u128_max
      → burn_if x op_return tick info (x.from_nat n) c
        ≡ ran (record c { tokens = after_burn op_return (tick_key x tick) info n c.tokens }) (ok tt)
  unfolding burn_if update_burned_token_info
  burn_if-runs false tick info n c there fits = refl
  burn_if-runs true tick info n c there fits =
      rw
        (
          sum_u128-fits x exact info.burned_supply n (exact.from_nat_nat info.burned_supply)
              (exact.from_nat_nat n) fits,
          there,
          update_burned_token_info,
        )
        refl
