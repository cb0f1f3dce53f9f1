-- ===== src/Http/Laws.antt =====
-- What is sent for a handler's calls: the status, the header and the body, each from the list of
-- the calls.
use Prim.Native.String
use Prim.Native.String.{len}
use text.Mathlib.TextLemmas.{nil-append, append-nil, append_assoc}
use nexlog_server.Base.{
  ℕ, ◌+◌, String, ◌≡◌, refl, sym, ◌∙◌, ap, List, [], ◌∷◌, ◌++◌, true, Option, none, some,
}
use nexlog_server.GoMap
use nexlog_server.Http.{
  Action, set_header, del_header, write_header, write, Header, Sent, Writer, act, perform, respond,
  add_body, body_allowed, result, finish,
}

-- The status of the first call that sends the header, 200 if none does.
unfoldable pub first_status : List Action → ℕ
first_status [] = 200
first_status (set_header k v ∷ l) = first_status l
first_status (del_header k ∷ l) = first_status l
first_status (write_header c ∷ l) = c
first_status (write b ∷ l) = 200

-- The header as the calls have made it by then.
unfoldable pub header_from : Header → List Action → Header
header_from h [] = h
header_from h (set_header k v ∷ l) = header_from (GoMap.insert k v h) l
header_from h (del_header k ∷ l) = header_from (GoMap.erase k h) l
header_from h (write_header c ∷ l) = h
header_from h (write b ∷ l) = h

-- Everything that is written, in order.
unfoldable pub written : List Action → List String
written [] = []
written (set_header k v ∷ l) = written l
written (del_header k ∷ l) = written l
written (write_header c ∷ l) = written l
written (write b ∷ l) = b ∷ written l

unfoldable pub concat : List String → String
concat [] = ""
concat (b ∷ bs) = String.◌++◌ b (concat bs)

pub perform-append :
    (w : Writer) (xs ys : List Action) → perform w (xs ++ ys) ≡ perform (perform w xs) ys
unfolding perform
perform-append w [] ys = refl
perform-append w (a ∷ xs) ys = perform-append (act w a) xs ys

abbrev writer : Header → Option Sent → ℕ → String → Writer
writer h s n b = record { header = h; sent = s; count = n; body = b }

abbrev sent : ℕ → Header → Option Sent
sent c h = some (record { status = c; header = h })

-- Once the header is sent, no later call changes it.
perform_sent :
    (h : Header) (s : Sent) (n : ℕ) (b : String) (l : List Action)
    → (perform (writer h (some s) n b) l).sent ≡ some s
unfolding perform
perform_sent h s n b [] = refl
perform_sent h s n b (set_header k v ∷ l) = perform_sent (GoMap.insert k v h) s n b l
perform_sent h s n b (del_header k ∷ l) = perform_sent (GoMap.erase k h) s n b l
perform_sent h s n b (write_header c ∷ l) = perform_sent h s n b l
perform_sent h s n b (write x ∷ l) =
    perform_sent h s (n + len x) (add_body (some s) (n + len x) b x) l

-- The body of a response whose status allows one and which declares no length.
perform_body :
    (h : Header) (s : Sent) (n : ℕ) (b : String) (l : List Action)
    → body_allowed s.status ≡ true
    → s.header "Content-Length" ≡ none
    → (perform (writer h (some s) n b) l).body ≡ String.◌++◌ b (concat (written l))
unfolding perform written concat
perform_body h s n b [] ok free = sym (append-nil b)
perform_body h s n b (set_header k v ∷ l) ok free =
    perform_body (GoMap.insert k v h) s n b l ok free
perform_body h s n b (del_header k ∷ l) ok free = perform_body (GoMap.erase k h) s n b l ok free
perform_body h s n b (write_header c ∷ l) ok free = perform_body h s n b l ok free
perform_body h s n b (write x ∷ l) ok free =
    rw (ok, free, perform)
      (perform_body h s (n + len x) (String.◌++◌ b x) l ok free
        ∙ append_assoc b x (concat (written l)))

abbrev unsent : Header → Writer
unsent h = writer h none 0 ""

status_from :
    (h : Header) (l : List Action) → (result (perform (unsent h) l)).status ≡ first_status l
unfolding perform first_status
status_from h [] = refl
status_from h (set_header k v ∷ l) = status_from (GoMap.insert k v h) l
status_from h (del_header k ∷ l) = status_from (GoMap.erase k h) l
status_from h (write_header c ∷ l) = rw perform_sent
status_from h (write b ∷ l) = rw perform_sent

pub status-respond : (l : List Action) → (respond l).status ≡ first_status l
status-respond l = status_from GoMap.empty l

header_lem :
    (h : Header) (l : List Action) → (result (perform (unsent h) l)).header ≡ header_from h l
unfolding perform header_from
header_lem h [] = refl
header_lem h (set_header k v ∷ l) = header_lem (GoMap.insert k v h) l
header_lem h (del_header k ∷ l) = header_lem (GoMap.erase k h) l
header_lem h (write_header c ∷ l) = rw perform_sent
header_lem h (write b ∷ l) = rw perform_sent

pub header-respond : (l : List Action) → (respond l).header ≡ header_from GoMap.empty l
header-respond l = header_lem GoMap.empty l

body_lem :
    (h : Header) (l : List Action)
    → body_allowed (first_status l) ≡ true
    → header_from h l "Content-Length" ≡ none
    → (perform (unsent h) l).body ≡ concat (written l)
unfolding perform first_status header_from written concat body_allowed
body_lem h [] ok free = refl
body_lem h (set_header k v ∷ l) ok free = body_lem (GoMap.insert k v h) l ok free
body_lem h (del_header k ∷ l) ok free = body_lem (GoMap.erase k h) l ok free
body_lem h (write_header c ∷ l) ok free =
    perform_body h (record { status = c; header = h }) 0 "" l ok free ∙ nil-append _
body_lem h (write b ∷ l) ok free =
    rw (free, perform)
      (perform_body h (record { status = 200; header = h }) (0 + len b) (String.◌++◌ "" b) l refl
          free
        ∙ ap (λ x. String.◌++◌ x (concat (written l))) (nil-append b))

body-finish : (s : Option Sent) (h : Header) (b : String) → (finish s h b).body ≡ b
body-finish none h b = refl
body-finish (some s) h b = refl

pub body-respond :
    (l : List Action)
    → body_allowed (first_status l) ≡ true
    → header_from GoMap.empty l "Content-Length" ≡ none
    → (respond l).body ≡ concat (written l)
body-respond l ok free = body-finish _ _ _ ∙ body_lem GoMap.empty l ok free
