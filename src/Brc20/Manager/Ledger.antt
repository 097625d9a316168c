-- ===== src/Brc20/Manager/Ledger.antt =====
-- What the messages of a transaction do to the books.
use okx_ord.Common.{ℕ, suc, ◌≡◌, refl, ap, List, [], ◌∷◌, some, length, true, ◌==◌, ◌∙◌, arith}
use okx_ord.Common.Dict.{Dict, lookup, insert, lookup-insert}
use okx_ord.Brc20.External.{External, IsExact}
use okx_ord.Brc20.Types.{ExecutionMessage, Receipt, ok}
use okx_ord.Brc20.Store.{Context, ran}
use okx_ord.Brc20.Execute.{execute}
use okx_ord.Brc20.Books.{IsBooked}
use okx_ord.Brc20.Books.Process.{IsAdmissible, execute-IsBooked}
use okx_ord.Brc20.Messages.{Message}
use okx_ord.Brc20.Manager.{
  Outputs, from_message, indexed, execute_all, execute_message, add_attributes,
}

==-refl : (n : ℕ) → (n == n) ≡ true
==-refl n = ground arith

module _ (x : External) (outputs : Outputs) where
  -- Every message can be completed, and is admissible in the context that those before it leave.
  unfoldable pub AreAdmissible : List Message → Context → Type 0
  AreAdmissible [] c = Unit
  AreAdmissible (m ∷ ms) c =
      (msg : ExecutionMessage) × (from_message outputs m ≡ some msg)
      × IsAdmissible x msg c
      × ((c' : Context) (receipt : Receipt)
          → execute x msg c ≡ ran c' (ok receipt)
          → AreAdmissible ms c')

  execute_all-IsBooked :
      (exact : IsExact x) (ms : List Message) (c : Context)
      → IsBooked x c
      → AreAdmissible ms c
      → (c' : Context) × (receipts : List Receipt) × (execute_all x outputs ms c
          ≡ indexed c' receipts)
        × IsBooked x c'
        × (length receipts ≡ length ms)
  unfolding execute_all AreAdmissible
  execute_all-IsBooked exact [] c booked fine = (c, [], refl, booked, refl)
  execute_all-IsBooked exact (m ∷ ms) c booked (msg, complete, admissible, later) =
      let (c1, receipt, runs, now) = execute-IsBooked x exact msg c booked admissible in
      let (c2, receipts, rest_runs, kept, same) =
        execute_all-IsBooked exact ms c1 now (later c1 receipt runs) in
      (c2, receipt ∷ receipts, rw (complete, runs, rest_runs) refl, kept, ap suc same)

  -- The receipts and the kinds are not a part of the books.
  saved-IsBooked :
      (c : Context) (events : Dict (List Receipt)) (ids : List ℕ)
      → IsBooked x c
      → IsBooked x (record c { events = events; brc20_inscriptions = ids })
  saved-IsBooked c events ids booked = record {
    sums = booked.sums;
    held = booked.held;
    cover = booked.cover;
    caps = booked.caps;
    balance_keys = booked.balance_keys;
    token_keys = booked.token_keys;
  }

  -- Let the external operations be exact, the books be kept, and let every message of a transaction
  -- be one that can be completed and is admissible where it is executed. Then the execution of the
  -- messages goes through: it saves one receipt for each message under the transaction's id, and the
  -- books are kept.
  pub execute_message-IsBooked :
      (exact : IsExact x) (txid : ℕ) (ms : List Message) (c : Context)
      → IsBooked x c
      → AreAdmissible ms c
      → (c' : Context) × (receipts : List Receipt) × (execute_message x outputs txid ms c
          ≡ indexed c' tt)
        × (lookup txid c'.events ≡ some receipts)
        × (length receipts ≡ length ms)
        × IsBooked x c'
  unfolding execute_message
  execute_message-IsBooked exact txid ms c booked fine =
      let (c1, receipts, runs, kept, same) = execute_all-IsBooked exact ms c booked fine in
      (
        record c1 {
          events = insert txid receipts c1.events;
          brc20_inscriptions = add_attributes receipts c1.brc20_inscriptions;
        },
        receipts,
        rw runs refl,
        lookup-insert txid txid receipts c1.events ∙ rw (==-refl txid) refl,
        same,
        saved-IsBooked c1 _ _ kept,
      )
