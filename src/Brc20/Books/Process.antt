-- ===== src/Brc20/Books/Process.antt =====
-- What the execution of a message, and of a series of messages, does to the books.
use okx_ord.Common.{◌+◌, ◌≤◌, ◌≡◌, refl, none, some, inl, inr, ◌⊎◌}
use okx_ord.Common.Dict.{lookup}
use okx_ord.Common.Outcome.{u128_max}
use okx_ord.Brc20.External.{External, IsExact}
use okx_ord.Brc20.Types.{
  TransferableLog, Brc20Error, ExecutionMessage, Operation, Event, Receipt, ok, err,
}
use okx_ord.Brc20.Store.{Context, ran, tick_key}
use okx_ord.Brc20.Execute.{process, execute, receipt_of}
use okx_ord.Brc20.Books.{burned_of, IsBooked, Handled}
use okx_ord.Brc20.Books.Effects.{IsDeployed, IsMinted, IsInscribed, IsTransferred}
use okx_ord.Brc20.Books.Deploys.{process_deploy-IsDeployed}
use okx_ord.Brc20.Books.Mints.{process_mint-IsMinted}
use okx_ord.Brc20.Books.Inscribes.{process_inscribe_transfer-IsInscribed}
use okx_ord.Brc20.Books.Transfers.{process_transfer-IsTransferred}

module _ (x : External) where
  -- The new satpoint holds no log, and what is burned has room for the log at the old satpoint.
  pub record IsAdmissible (msg : ExecutionMessage) (c : Context) : Type 0 where
    pub fresh : lookup msg.new_satpoint c.satpoint_to_assets ≡ none
    pub burn_room :
        (asset : TransferableLog)
        → lookup msg.old_satpoint c.satpoint_to_assets ≡ some asset
        → burned_of (tick_key x asset.tick) c.tokens + asset.amount ≤ u128_max

  -- What a successful message does, by its operation.
  abbrev pub DoesItsPart : ExecutionMessage → Operation → Context → Context → Type 0
  DoesItsPart msg (Operation.deploy d) c c' = IsDeployed x c c'
  DoesItsPart msg (Operation.mint m parent) c c' = IsMinted x c c'
  DoesItsPart msg (Operation.inscribe_transfer t) c c' = IsInscribed x c c'
  DoesItsPart msg (Operation.transfer t) c c' = IsTransferred x msg c c'

  -- The contexts that the execution of admissible messages leads to, from one to another.
  pub data Leads (start : Context) : Context → Type 0 where
    stay : Leads start start
    next :
        {c c' : Context} {receipt : Receipt} (msg : ExecutionMessage)
        → Leads start c
        → IsAdmissible msg c
        → execute x msg c ≡ ran c' (ok receipt)
        → Leads start c'

module _ (x : External) (exact : IsExact x) where
  DoesItsPart-IsBooked :
      (msg : ExecutionMessage) (op : Operation) (c c' : Context)
      → DoesItsPart x msg op c c'
      → IsBooked x c'
  DoesItsPart-IsBooked msg (Operation.deploy d) c c' h = h.booked
  DoesItsPart-IsBooked msg (Operation.mint m parent) c c' h = h.booked
  DoesItsPart-IsBooked msg (Operation.inscribe_transfer t) c c' h = h.booked
  DoesItsPart-IsBooked msg (Operation.transfer t) c c' h = h.booked

  process-DoesItsPart :
      (msg : ExecutionMessage) (op : Operation) (c : Context)
      → IsBooked x c
      → IsAdmissible x msg c
      → Handled x c (process x msg op c) (λ c' ev. DoesItsPart x msg op c c')
  unfolding process
  process-DoesItsPart msg (Operation.deploy d) c booked fine =
      process_deploy-IsDeployed x exact msg d c booked
  process-DoesItsPart msg (Operation.mint m parent) c booked fine =
      process_mint-IsMinted x exact msg m parent c booked
  process-DoesItsPart msg (Operation.inscribe_transfer t) c booked fine =
      process_inscribe_transfer-IsInscribed x exact msg t c booked fine.fresh
  process-DoesItsPart msg (Operation.transfer t) c booked fine =
      process_transfer-IsTransferred x exact msg c booked fine.burn_room

  -- Let the external operations be exact, the books be kept and the message be admissible. Then its
  -- execution neither panics nor fails: it gives a receipt. The receipt has an error and the context
  -- is as before, or it has an event and the context is changed as the operation says.
  pub execute-DoesItsPart :
      (msg : ExecutionMessage) (c : Context)
      → IsBooked x c
      → IsAdmissible x msg c
      → ((e : Brc20Error) × (execute x msg c ≡ ran c (ok (receipt_of x msg (err e)))))
        ⊎ ((c' : Context) × (event : Event) × (execute x msg c
              ≡ ran c' (ok (receipt_of x msg (ok event))))
            × DoesItsPart x msg msg.op c c')
  unfolding execute
  execute-DoesItsPart msg c booked fine = elim (process-DoesItsPart msg msg.op c booked fine) [
    | inl (e, failed) ↦ inl (e, rw failed refl)
    | inr (c', event, runs, part) ↦ inr (c', event, rw runs refl, part)
  ]

  -- An admissible message leaves kept books.
  pub execute-IsBooked :
      (msg : ExecutionMessage) (c : Context)
      → IsBooked x c
      → IsAdmissible x msg c
      → (c' : Context) × (receipt : Receipt) × (execute x msg c ≡ ran c' (ok receipt))
        × IsBooked x c'
  execute-IsBooked msg c booked fine = elim (execute-DoesItsPart msg c booked fine) [
    | inl (e, failed) ↦ (c, receipt_of x msg (err e), failed, booked)
    | inr (c', event, runs, part) ↦
        (c', receipt_of x msg (ok event), runs, DoesItsPart-IsBooked msg msg.op c c' part)
  ]

  -- Let the external operations be exact. Then a context that a series of executions of admissible
  -- messages leads to, from one with kept books, has kept books: for every tick the balances add
  -- up to what is minted, which is within the supply, and the transferable balances are covered.
  pub Leads-IsBooked : {start c : Context} → IsBooked x start → Leads x start c → IsBooked x c
  Leads-IsBooked booked stay = booked
  Leads-IsBooked booked (next {c = c} {c' = c'} msg before fine runs) =
      let (d, receipt, runs', now) = execute-IsBooked msg c (Leads-IsBooked booked before) fine in
      let same : d ≡ c' = cc in rw same at now
