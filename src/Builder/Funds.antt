-- ===== src/Builder/Funds.antt =====
-- The states that the builder runs through, and what its inputs are worth in each of them.
use okx_ord.Common.{
  ℕ, ◌+◌, ◌≤◌, ◌≡◌, sym, List, [], ◌∷◌, ◌++◌, Option, none, some, ◌==◌, if◌then◌else◌, arith,
  length, length-append, All, Bool-cases, inl, inr, ==_iff,
}
use okx_ord.Builder.State.{TransactionBuilder, keys, remove_utxo}
use okx_ord.Builder.Build.{count}
use okx_ord.Builder.Counts.{
  length-remove_utxo, length_one_more, value_of, worth, worth-remove_utxo, value_of-some,
  count-remove_utxo, All-remove_utxo, worth-append, count-append,
}
use okx_ord.Builder.Choice.{IsCardinal, Known, Chosen}
use okx_ord.Builder.Request.{Request, order}

module _ (q : Request) where
  -- The outputs: an alignment output, if there is one, the recipient's, and a change output, if there
  -- is one. The alignment output takes the second change address.
  abbrev pub aligned : Option ℕ → List (ℕ × ℕ)
  aligned none = []
  aligned (some p) = (q.second, p) ∷ []

  abbrev pub padding : Option ℕ → ℕ
  padding none = 0
  padding (some p) = p

  abbrev pub change_address : Option ℕ → ℕ
  change_address none = q.second
  change_address (some p) = q.first

  abbrev pub unused : Option ℕ → List ℕ
  unused none = q.first ∷ q.second ∷ []
  unused (some p) = q.first ∷ []

  abbrev pub unused_after : Option ℕ → List ℕ
  unused_after none = q.first ∷ []
  unused_after (some p) = []

  abbrev pub plain_outputs : Option ℕ → ℕ → List (ℕ × ℕ)
  plain_outputs a v = aligned a ++ (q.recipient, v) ∷ []

  abbrev pub stripped_outputs : Option ℕ → ℕ → ℕ → List (ℕ × ℕ)
  stripped_outputs a v s = aligned a ++ (q.recipient, v) ∷ (change_address a, s) ∷ []

  -- The outputs and the change addresses left, by the amount of the change output.
  abbrev pub outputs_of : Option ℕ → ℕ → Option ℕ → List (ℕ × ℕ)
  outputs_of a v none = plain_outputs a v
  outputs_of a v (some s) = stripped_outputs a v s

  abbrev pub unused_of : Option ℕ → Option ℕ → List ℕ
  unused_of a none = unused a
  unused_of a (some s) = unused_after a

  abbrev pub inputs_of : List ℕ → List ℕ → List ℕ
  inputs_of before after = before ++ q.outgoing.outpoint ∷ after

  abbrev pub state : List ℕ → List ℕ → List (ℕ × ℕ) → List ℕ → List ℕ → TransactionBuilder
  state before after outputs unused utxos = record (order q) {
    inputs = inputs_of before after;
    outputs = outputs;
    unused_change_addresses = unused;
    utxos = utxos;
  }

  pub length-inputs_of :
      (before after : List ℕ) → length (inputs_of before after) ≡ length before + length after + 1
  length-inputs_of before after = omega (arith, length-append before (q.outgoing.outpoint ∷ after))

  -- Inputs before and after the outgoing one that are cardinal and of the wallet, none twice and none
  -- still to be chosen; they are worth the padding and the value, and the outgoing sat comes right
  -- after the padding.
  pub record Ledger (before after : List ℕ) (p v : ℕ) (utxos : List ℕ) : Type 0 where
    pub once :
        (u : ℕ)
        → count u before
            + count u after
            + (if u == q.outgoing.outpoint then 1 else 0)
            + count u utxos
          ≤ 1
    pub room : length before + length after + 1 + length utxos ≤ length (keys q.amounts)
    pub inside : q.outgoing.offset + 1 ≤ value_of q.amounts q.outgoing.outpoint
    pub place : worth q.amounts before + q.outgoing.offset ≡ p
    pub total :
        worth q.amounts before + value_of q.amounts q.outgoing.outpoint + worth q.amounts after
        ≡ p + v
    pub budget : p + v + worth q.amounts utxos ≤ worth q.amounts (keys q.amounts)
    pub outgoing : Known (order q) q.outgoing.outpoint
    pub known_before : All (Known (order q)) before
    pub known_after : All (Known (order q)) after
    pub known_utxos : All (Known (order q)) utxos
    pub cardinal_before : All (IsCardinal (order q)) before
    pub cardinal_after : All (IsCardinal (order q)) after

  module _ (before after : List ℕ) (p v : ℕ) (utxos : List ℕ) (c : ℕ × ℕ) where
    taken_once :
        ((u : ℕ)
          → count u before
              + count u after
              + (if u == q.outgoing.outpoint then 1 else 0)
              + count u utxos
            ≤ 1)
        → Chosen (order q) utxos c
        → (u : ℕ)
        → (if u == c.0 then 1 else 0)
            + (count u before + count u after)
            + (if u == q.outgoing.outpoint then 1 else 0)
            + count u (remove_utxo c.0 utxos)
          ≤ 1
    taken_once once chosen u = elim (Bool-cases (u == c.0)) [
      | inl same ↦
          let e : u ≡ c.0 = (==_iff u c.0).0 same in
          let r = count-remove_utxo u c.0 utxos in
          let o = once u in
          let l : 1 ≤ count u utxos = rw e chosen.listed in
          let r' : count u (remove_utxo c.0 utxos) ≡ 0 = rw same at r in
          rw (same, r') (omega (arith, o, l))
      | inr other ↦
          let r = count-remove_utxo u c.0 utxos in
          let r' : count u (remove_utxo c.0 utxos) ≡ count u utxos = rw other at r in
          let o = once u in rw (other, r') (omega (arith, o))
    ]

    listed_once : Ledger before after p v utxos → Chosen (order q) utxos c → count c.0 utxos ≡ 1
    listed_once h chosen = let o = h.once c.0 in omega (arith, o, chosen.listed)

    spent :
        Ledger before after p v utxos
        → Chosen (order q) utxos c
        → worth q.amounts (remove_utxo c.0 utxos) + c.1 ≡ worth q.amounts utxos
    spent h chosen = omega (
      arith,
      worth-remove_utxo q.amounts c.0 utxos (listed_once h chosen),
      value_of-some q.amounts c.0 c.1 chosen.priced,
    )

    -- A chosen output put before all inputs grows the padding.
    pub Ledger-before :
        Ledger before after p v utxos
        → Chosen (order q) utxos c
        → Ledger (c.0 ∷ before) after (p + c.1) v (remove_utxo c.0 utxos)
    unfolding worth count
    Ledger-before h chosen =
        let w = value_of-some q.amounts c.0 c.1 chosen.priced in
        let s = spent h chosen in
        record {
          once = λ u. (let t = taken_once h.once chosen u in omega (arith, t));
          room = (let l = length-remove_utxo c.0 utxos in omega (arith, l, chosen.listed, h.room));
          inside = h.inside;
          place = omega (arith, w, h.place);
          total = omega (arith, w, h.total);
          budget = omega (arith, s, h.budget);
          outgoing = h.outgoing;
          known_before = ((c.1, chosen.priced), h.known_before);
          known_after = h.known_after;
          known_utxos = All-remove_utxo (Known (order q)) c.0 utxos h.known_utxos;
          cardinal_before = (chosen.cardinal, h.cardinal_before);
          cardinal_after = h.cardinal_after;
        }

    append-All : (P : ℕ → Type 0) (xs : List ℕ) → All P xs → P c.0 → All P (xs ++ c.0 ∷ [])
    append-All P [] h g = (g, tt)
    append-All P (x ∷ xs) h g = (h.0, append-All P xs h.1 g)

    -- A chosen output put after all inputs grows the value.
    pub Ledger-after :
        Ledger before after p v utxos
        → Chosen (order q) utxos c
        → Ledger before (after ++ c.0 ∷ []) p (v + c.1) (remove_utxo c.0 utxos)
    unfolding worth count
    Ledger-after h chosen =
        let w = value_of-some q.amounts c.0 c.1 chosen.priced in
        let s = spent h chosen in
        let more = worth-append q.amounts after (c.0 ∷ []) in
        record {
          once = λ u.
              (let t = taken_once h.once chosen u in
                let k = count-append u after (c.0 ∷ []) in omega (arith, t, k));
          room =
              (let l = length-remove_utxo c.0 utxos in
                omega (arith, l, length_one_more c.0 after, chosen.listed, h.room));
          inside = h.inside;
          place = h.place;
          total = omega (arith, w, more, h.total);
          budget = omega (arith, s, h.budget);
          outgoing = h.outgoing;
          known_before = h.known_before;
          known_after = append-All (Known (order q)) after h.known_after (c.1, chosen.priced);
          known_utxos = All-remove_utxo (Known (order q)) c.0 utxos h.known_utxos;
          cardinal_before = h.cardinal_before;
          cardinal_after = append-All (IsCardinal (order q)) after h.cardinal_after chosen.cardinal;
        }

  pub same_worth :
      (before after : List ℕ) (p v w : ℕ) (utxos : List ℕ)
      → v ≡ w
      → Ledger before after p v utxos
      → Ledger before after p w utxos
  same_worth before after p v w utxos e h = rw (sym e) h

  module _ (before after : List ℕ) (outputs : List (ℕ × ℕ)) (unused utxos : List ℕ)
      (c : ℕ × ℕ) where
    pub Chosen-state :
        Chosen (state before after outputs unused utxos) utxos c → Chosen (order q) utxos c
    Chosen-state chosen = record {
      priced = chosen.priced;
      cardinal = record {
        no_runes = chosen.cardinal.no_runes;
        not_locked = chosen.cardinal.not_locked;
        no_inscription = chosen.cardinal.no_inscription;
      };
      listed = chosen.listed;
    }
