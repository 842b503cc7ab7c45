-- ===== src/Web/Shorten/Guest.antt =====
-- A guest's card makes one link, and the register offer stands after it.
use mikrouli.Common.{
  String, Bool, true, false, Option, none, some, List, [], ◌∷◌, ◌≡◌, inl, inr, refl, arith,
  Bool-cases, not, if◌then◌else◌,
}
use mikrouli.Auth.{PublicUser}
use mikrouli.Links.Controller.{PublicLink}
use mikrouli.Web.{Answer, resolved, rejected}
use mikrouli.Web.GuestFlag.{GuestFlagState}
use mikrouli.Web.Shorten.{
  Card, mounted, may_submit, submit, shortened, Event, change, press, settle, settled, step, run,
  moment_link, admitted, hidden, act, moment, guest_section,
}

-- Before the link: no request is under way, or one is and the button is disabled; after it none is.
data IsOnce (card : Card) : Type 0 where
  waiting : card.new_link ≡ none → card.notified ≡ [] → card.requests ≡ [] → IsOnce card
  under_way :
      (url : String)
      → card.new_link ≡ none
      → card.notified ≡ []
      → card.loading ≡ true
      → card.requests ≡ url ∷ []
      → IsOnce card
  made :
      (link : PublicLink)
      → card.new_link ≡ some link
      → card.notified ≡ link ∷ []
      → card.requests ≡ []
      → IsOnce card

submit-IsOnce : (card : Card) → IsOnce card → IsOnce (submit true card)
unfolding submit may_submit
submit-IsOnce card (waiting a b c) = elim (Bool-cases (may_submit true card)) [
  | inl e ↦ under_way card.url_input (ground arith) (ground arith) (ground arith) (ground arith)
  | inr e ↦ waiting (ground arith) (ground arith) (ground arith)
]
submit-IsOnce card (under_way url a b l r) =
    under_way url (ground arith) (ground arith) (ground arith) (ground arith)
submit-IsOnce card (made link a b r) = made link (ground arith) (ground arith) (ground arith)

settled-IsOnce :
    (answer : Answer PublicLink) (card : Card)
    → IsOnce card
    → IsOnce (settled answer card.requests card)
unfolding settled shortened
settled-IsOnce answer card (waiting a b c) = waiting (ground arith) (ground arith) (ground arith)
settled-IsOnce (resolved link) card (under_way url a b l r) =
    made link (ground arith) (ground arith) (ground arith)
settled-IsOnce (rejected cause) card (under_way url a b l r) =
    waiting (ground arith) (ground arith) (ground arith)
settled-IsOnce answer card (made link a b r) =
    made link (ground arith) (ground arith) (ground arith)

step-IsOnce : (e : Event) (card : Card) → IsOnce card → IsOnce (step true e card)
unfolding step
step-IsOnce (change text) card (waiting a b c) = waiting a b c
step-IsOnce (change text) card (under_way url a b l r) = under_way url a b l r
step-IsOnce (change text) card (made link a b r) = made link a b r
step-IsOnce press card h = submit-IsOnce card h
step-IsOnce (settle answer) card h = settled-IsOnce answer card h

run-IsOnce : (es : List Event) (card : Card) → IsOnce card → IsOnce (run true es card)
run-IsOnce [] card h = h
run-IsOnce (e ∷ es) card h = run-IsOnce es (step true e card) (step-IsOnce e card h)

section_of :
    (is_admitted declined offer : Bool) (link : PublicLink) (links : List PublicLink)
    → (if not is_admitted
        then hidden
        else elim (moment_link links) [ none ↦ act | some shown ↦ moment shown (not declined) ])
      ≡ moment link offer
    → (rest : List PublicLink) × (links ≡ link ∷ rest) × (not declined ≡ offer)
section_of false declined offer link links e = absurd (ground arith)
section_of true declined offer link [] e = absurd (ground arith)
section_of true declined offer link (shown ∷ rest) e = (rest, ground arith, ground arith)

IsMade : PublicLink → Card → Type 0
IsMade link card = (card.new_link ≡ some link) × (card.notified ≡ link ∷ []) × (card.requests ≡ [])

step-IsMade :
    (e : Event) (link : PublicLink) (card : Card)
    → IsMade link card
    → IsMade link (step true e card)
unfolding IsMade step submit may_submit settled
step-IsMade (change text) link card h = h
step-IsMade press link card (a, b, c) = (ground arith, ground arith, ground arith)
step-IsMade (settle answer) link card (a, b, c) = (ground arith, ground arith, ground arith)

run-IsMade :
    (es : List Event) (link : PublicLink) (card : Card)
    → IsMade link card
    → IsMade link (run true es card)
run-IsMade [] link card h = h
run-IsMade (e ∷ es) link card h = run-IsMade es link (step true e card) (step-IsMade e link card h)

moment-IsMade :
    (user : Option PublicUser) (flag : GuestFlagState) (declined offer : Bool) (link : PublicLink)
    (card : Card)
    → IsOnce card
    → guest_section user flag declined card ≡ moment link offer
    → IsMade link card
unfolding guest_section IsMade
moment-IsMade user flag declined offer link card (waiting a b c) e =
    let (rest, f, g) = section_of (admitted user flag) declined offer link card.notified e in
    absurd (ground arith)
moment-IsMade user flag declined offer link card (under_way url a b l r) e =
    let (rest, f, g) = section_of (admitted user flag) declined offer link card.notified e in
    absurd (ground arith)
moment-IsMade user flag declined offer link card (made k a b r) e =
    let (rest, f, g) = section_of (admitted user flag) declined offer link card.notified e in
    (ground arith, ground arith, r)

-- Whatever a guest does with the landing's card, and however its requests settle: where the register
-- offer stands, its link is the one link that the card has made, no request is under way, and
-- whatever comes after it makes no other.
pub offer_after_link :
    (es fs : List Event) (user : Option PublicUser) (flag : GuestFlagState) (declined : Bool)
    (link : PublicLink)
    → guest_section user flag declined (run true es mounted) ≡ moment link true
    → ((run true es mounted).notified ≡ link ∷ [])
      × ((run true es mounted).requests ≡ [])
      × ((run true fs (run true es mounted)).notified ≡ link ∷ [])
unfolding IsMade
offer_after_link es fs user flag declined link e =
    let card = run true es mounted in
    let h =
      moment-IsMade user flag declined true link card
        (run-IsOnce es mounted (waiting refl refl refl)) e in
    (h.1, h.2, (run-IsMade fs link card h).1)
