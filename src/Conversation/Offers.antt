-- ===== src/Conversation/Offers.antt =====
-- An offer of host/service/src/conversation.rs is taken at most once.
use scufris.Base.{String, Bool, false, List, [], ◌∷◌, ◌≡◌, ◌≢◌, refl, arith, inl, inr, ◌⊎◌}
use scufris.Base.Result.{ok}
use scufris.Control.Message.{Offer, Citation}
use scufris.Conversation.{
  StoredEntry, ConversationHistory, Found, missing, closed, opened, take_in_entries, take_in_offers,
  take_in_citation, take_in_citations, take_in_entry,
}
use scufris.Base.Files.{Fault}
use scufris.Conversation.Store.{Json, Disk, take_offer, take_found, Stored}
use scufris.Conversation.Runs.{Call, takes, step, run}

-- A search that opens nothing changes nothing, and one that opens an offer closes it.
abbrev Spends {ℓ} : {A : Type ℓ} → (A → A × Found) → A → Type ℓ
Spends take x =
    ((take x).1 ≢ opened → (take x).0 ≡ x)
    × ((take x).1 ≡ opened → take (take x).0 ≡ ((take x).0, closed))

take_in_offers-Spends : (id : String) (offers : List Offer) → Spends (take_in_offers id) offers
unfolding take_in_offers
take_in_offers-Spends id [] = (λ _. refl, λ e. cc)
take_in_offers-Spends id (offer ∷ rest) =
    let (quiet, loud) = take_in_offers-Spends id rest in (ground arith, ground arith)

take_in_citation-Spends : (id : String) (c : Citation) → Spends (take_in_citation id) c
unfolding take_in_citation
take_in_citation-Spends id c =
    let (quiet, loud) = take_in_offers-Spends id c.offers in (ground arith, ground arith)

take_in_citations-Spends : (id : String) (cs : List Citation) → Spends (take_in_citations id) cs
unfolding take_in_citations
take_in_citations-Spends id [] = (λ _. refl, λ e. cc)
take_in_citations-Spends id (c ∷ cs) =
    let (quiet, loud) = take_in_citations-Spends id cs in
    let (quiet', loud') = take_in_citation-Spends id c in (ground arith, ground arith)

not_opened : (f : Found) → f ≢ opened → (f ≡ missing) ⊎ (f ≡ closed)
not_opened missing h = inl refl
not_opened closed h = inr refl
not_opened opened h = absurd (h refl)

-- What is not there to open stays so, whatever else is taken.
abbrev Stays {ℓ} : {A : Type ℓ} → (A → A × Found) → (A → A × Found) → A → Type 0
Stays take other x =
    ((take x).1 ≡ missing → (take (other x).0).1 ≡ missing)
    × ((take x).1 ≡ closed → (take (other x).0).1 ≡ closed)

take_in_offers-Stays :
    (id other : String) (offers : List Offer)
    → Stays (take_in_offers id) (take_in_offers other) offers
unfolding take_in_offers
take_in_offers-Stays id other [] = ((λ e. e), λ e. e)
take_in_offers-Stays id other (offer ∷ rest) =
    let (quiet, shut) = take_in_offers-Stays id other rest in (ground arith, ground arith)

take_in_citation-Stays :
    (id other : String) (c : Citation) → Stays (take_in_citation id) (take_in_citation other) c
unfolding take_in_citation
take_in_citation-Stays id other c = take_in_offers-Stays id other c.offers

take_in_citations-Stays :
    (id other : String) (cs : List Citation)
    → Stays (take_in_citations id) (take_in_citations other) cs
unfolding take_in_citations
take_in_citations-Stays id other [] = ((λ e. e), λ e. e)
take_in_citations-Stays id other (c ∷ cs) =
    let (quiet, shut) = take_in_citations-Stays id other cs in
    let (quiet', shut') = take_in_citation-Stays id other c in (ground arith, ground arith)

module _ {Value : Type 0} where
  take_in_entry-Spends : (id : String) (e : StoredEntry Value) → Spends (take_in_entry id) e
  unfolding take_in_entry
  take_in_entry-Spends id e =
      let (quiet, loud) = take_in_citations-Spends id e.message.receipts in
      (ground arith, ground arith)

  take_in_entries-Spends :
      (id : String) (es : List (StoredEntry Value)) → Spends (take_in_entries id) es
  unfolding take_in_entries
  take_in_entries-Spends id [] = (λ _. refl, λ e. cc)
  take_in_entries-Spends id (e ∷ es) =
      let (quiet, loud) = take_in_entries-Spends id es in
      let (quiet', loud') = take_in_entry-Spends id e in (ground arith, ground arith)

  take_in_entry-Stays :
      (id other : String) (e : StoredEntry Value) → Stays (take_in_entry id) (take_in_entry other) e
  unfolding take_in_entry
  take_in_entry-Stays id other e = take_in_citations-Stays id other e.message.receipts

  take_in_entries-Stays :
      (id other : String) (es : List (StoredEntry Value))
      → Stays (take_in_entries id) (take_in_entries other) es
  unfolding take_in_entries
  take_in_entries-Stays id other [] = ((λ e. e), λ e. e)
  take_in_entries-Stays id other (e ∷ es) =
      let (quiet, shut) = take_in_entries-Stays id other es in
      let (quiet', shut') = take_in_entry-Stays id other e in (ground arith, ground arith)

  -- There is nothing to open under an identifier.
  abbrev IsShut : String → ConversationHistory Value → Type 0
  IsShut id h = (take_in_entries id h.entries).1 ≢ opened

  taken-IsShut :
      (id other : String) (h : ConversationHistory Value)
      → IsShut id h
      → IsShut id (record h { entries = (take_in_entries other h.entries).0 })
  taken-IsShut id other h shut =
      let (quiet, closed_) = take_in_entries-Stays id other h.entries in
      elim (not_opened (take_in_entries id h.entries).1 shut) [
        | inl none_ ↦ let after = quiet none_ in λ e. cc
        | inr spent ↦ let after = closed_ spent in λ e. cc
      ]

-- Attempts at any offers, with what the write of each meets.
abbrev pub attempts : {Value : Type 0} → List (Fault × String) → List (Call Value)
attempts [] = []
attempts ((fault, id) ∷ rest) = takes fault id ∷ attempts rest

module _ {Value : Type 0} (json : Json Value) where
  take_found-IsShut :
      (id : String) (fault : Fault) (h : ConversationHistory Value) (es : List (StoredEntry Value))
      (f : Found) (disk : Disk)
      → IsShut id h
      → IsShut id (record h { entries = es })
      → IsShut id (take_found json fault h es f disk).1
  unfolding take_found
  take_found-IsShut id fault h es opened disk before after = after
  take_found-IsShut id fault h es _ disk before after = before

  run-IsShut :
      (id : String) (h : ConversationHistory Value) (disk : Disk) (tries : List (Fault × String))
      → IsShut id h
      → IsShut id (run json (h, disk) (attempts tries)).0
  unfolding run step take_offer
  run-IsShut id h disk [] shut = shut
  run-IsShut id h disk ((fault, other) ∷ tries) shut =
      let (es, f) = take_in_entries other h.entries in
      let (r, h', disk') = take_found json fault h es f disk in
      run-IsShut id h' disk' tries
        (take_found-IsShut id fault h es f disk shut (taken-IsShut id other h shut))

  abbrev pub OnceTaken : String → ConversationHistory Value → Disk → Stored json Bool → Type 0
  OnceTaken id h disk (r, h', disk') =
      (r ≡ ok false → (h' ≡ h) × (disk' ≡ disk))
      × ((tries : List (Fault × String)) (again : Fault) (later : Disk)
          → let (h'', disk'') = run json (h', later) (attempts tries) in
            take_offer json again h'' id disk'' ≡ (ok false, h'', disk''))

  take_offer_quiet :
      (fault : Fault) (h : ConversationHistory Value) (id : String) (disk : Disk)
      → (take_in_entries id h.entries).1 ≢ opened
      → take_offer json fault h id disk ≡ (ok false, h, disk)
  unfolding take_offer
  take_offer_quiet fault h id disk closed_ = ground arith

  take_offer_loud :
      (fault : Fault) (h : ConversationHistory Value) (id : String) (disk : Disk)
      → (take_in_entries id h.entries).1 ≡ opened
      → ((take_offer json fault h id disk).0 ≢ ok false)
        × ((take_offer json fault h id disk).1
            ≡ record h { entries = (take_in_entries id h.entries).0 })
  unfolding take_offer
  take_offer_loud fault h id disk found = (ground arith, ground arith)

  Found-cases : (f : Found) → (f ≡ opened) ⊎ (f ≢ opened)
  Found-cases missing = inr (λ e. cc)
  Found-cases closed = inr (λ e. cc)
  Found-cases opened = inl refl

  -- An attempt where nothing is left to open, after any attempts.
  shut_again :
      (id : String) (h : ConversationHistory Value)
      → IsShut id h
      → (tries : List (Fault × String)) (again : Fault) (later : Disk)
      → let (h'', disk'') = run json (h, later) (attempts tries) in
        take_offer json again h'' id disk'' ≡ (ok false, h'', disk'')
  shut_again id h shut tries again later =
      let (h'', disk'') = run json (h, later) (attempts tries) in
      take_offer_quiet again h'' id disk'' (run-IsShut id h later tries shut)

  -- After one attempt at an offer, whatever it met on disk, another attempt at it that comes after
  -- nothing but attempts at any offers opens nothing, whatever is on disk by then: it reports that
  -- nothing is left to take and changes neither the replay nor the disk. An attempt that reports so
  -- itself changed neither.
  pub take_offer_once :
      (fault : Fault) (h : ConversationHistory Value) (id : String) (disk : Disk)
      → OnceTaken id h disk (take_offer json fault h id disk)
  take_offer_once fault h id disk = elim (Found-cases (take_in_entries id h.entries).1) [
    | inl found ↦
        let (spent, now) = take_offer_loud fault h id disk found in
        let again = (take_in_entries-Spends id h.entries).1 found in
        let left : ConversationHistory Value = record h {
          entries = (take_in_entries id h.entries).0;
        } in
        ((λ e. absurd (spent e)), rw now (shut_again id left (rw again (λ e. cc))))
    | inr quiet ↦
        rw (take_offer_quiet fault h id disk quiet) ((λ _. (refl, refl)), shut_again id h quiet)
  ]
