-- ===== src/ExtMcp/Lifecycle.antt =====
-- What the store says of an operation after a series of hooks.
use evidra_agentgateway_brid.Prelude.{
  String, ◌≡◌, refl, ◌⊎◌, inl, inr, Bool, true, false, ◌||◌, ◌&&◌, Option, none, some, List, [],
  ◌∷◌, ◌==◌, text_cases, ◌∙◌, ap,
}
use evidra_agentgateway_brid.Dict.{get, get-put}
use evidra_agentgateway_brid.ExtMcp.{
  Capture, Store, McpMessage, new_capture, capture_of, mark, operation_context, check,
  check_request, check_response,
}

-- A call of one of the two hooks.
pub data Hook : Type 0 where
  request : McpMessage → Hook
  response : McpMessage → Hook

unfoldable pub call : Hook → Store → Option String × Store
call (request m) s = check_request m s
call (response m) s = check_response m s

abbrev pub call_all : List Hook → Store → Store
call_all [] s = s
call_all (h ∷ hs) s = call_all hs (call h s).1

-- The message declares the operation.
abbrev pub declares : String → String ⊎ String → Bool
declares operation (inl e) = false
declares operation (inr o) = o == operation

abbrev pub is_request_of : String → Hook → Bool
is_request_of operation (request m) = declares operation (operation_context m.metadata_context)
is_request_of operation (response m) = false

abbrev pub is_response_of : String → Hook → Bool
is_response_of operation (request m) = false
is_response_of operation (response m) = declares operation (operation_context m.metadata_context)

abbrev pub some_of : (Hook → Bool) → List Hook → Bool
some_of test [] = false
some_of test (h ∷ hs) = test h || some_of test hs

abbrev pub request_noted : Option Capture → Bool
request_noted none = false
request_noted (some c) = c.request_seen

abbrev pub response_noted : Option Capture → Bool
response_noted none = false
response_noted (some c) = c.response_seen

or_false : (b : Bool) → b ≡ b || false
or_false true = refl
or_false false = refl

and_true : (b : Bool) → (b && true) ≡ b
and_true true = refl
and_true false = refl

and_false : (b : Bool) → (b && false) ≡ false
and_false true = refl
and_false false = refl

or_assoc : (a b c : Bool) → ((a || b) || c) ≡ a || (b || c)
or_assoc true b c = refl
or_assoc false b c = refl

capture_of-noted :
    (m : Option Capture) (o : String) (services : List String) (method : String)
    → ((capture_of m o services method).request_seen ≡ request_noted m)
      × ((capture_of m o services method).response_seen ≡ response_noted m)
unfolding capture_of new_capture
capture_of-noted none o services method = (refl, refl)
capture_of-noted (some c) o services method = (refl, refl)

mark_lem :
    (o operation method : String) (services : List String) (start finish : Bool) (s : Store)
    → (request_noted (get operation (mark o services method start finish s))
        ≡ request_noted (get operation s) || (o == operation && start))
      × (response_noted (get operation (mark o services method start finish s))
          ≡ response_noted (get operation s) || (o == operation && finish))
unfolding mark
mark_lem o operation method services start finish s = elim (text_cases o operation) [
  | inr (f, n) ↦ rw (get-put, f) (or_false _, or_false _)
  | inl (t, p) ↦
      let (q, r) = capture_of-noted (get o s) o services method in
      rw (get-put, t, q, r, p) (refl, refl)
]

check_lem :
    (m : McpMessage) (d : String ⊎ String) (operation : String) (start finish : Bool) (s : Store)
    → (request_noted (get operation (check d m start finish s).1)
        ≡ request_noted (get operation s) || (declares operation d && start))
      × (response_noted (get operation (check d m start finish s).1)
          ≡ response_noted (get operation s) || (declares operation d && finish))
unfolding check
check_lem m (inl e) operation start finish s = (or_false _, or_false _)
check_lem m (inr o) operation start finish s =
    mark_lem o operation m.method m.service_names start finish s

call_lem :
    (h : Hook) (operation : String) (s : Store)
    → (request_noted (get operation (call h s).1)
        ≡ request_noted (get operation s) || is_request_of operation h)
      × (response_noted (get operation (call h s).1)
          ≡ response_noted (get operation s) || is_response_of operation h)
unfolding call check_request check_response
call_lem (request m) operation s =
    let (a, b) = check_lem m (operation_context m.metadata_context) operation true false s in
    (
      a ∙ ap (λ x. request_noted (get operation s) || x) (and_true _),
      b ∙ ap (λ x. response_noted (get operation s) || x) (and_false _),
    )
call_lem (response m) operation s =
    let (a, b) = check_lem m (operation_context m.metadata_context) operation false true s in
    (
      a ∙ ap (λ x. request_noted (get operation s) || x) (and_false _),
      b ∙ ap (λ x. response_noted (get operation s) || x) (and_true _),
    )

series_lem :
    (hs : List Hook) (operation : String) (s : Store)
    → (request_noted (get operation (call_all hs s))
        ≡ request_noted (get operation s) || some_of (is_request_of operation) hs)
      × (response_noted (get operation (call_all hs s))
          ≡ response_noted (get operation s) || some_of (is_response_of operation) hs)
series_lem [] operation s = (or_false _, or_false _)
series_lem (h ∷ hs) operation s =
    let (a, b) = series_lem hs operation (call h s).1 in
    let (c, d) = call_lem h operation s in
    (
      a
          ∙ ap (λ x. x || some_of (is_request_of operation) hs) c
          ∙ or_assoc (request_noted (get operation s)) (is_request_of operation h) _,
      b
          ∙ ap (λ x. x || some_of (is_response_of operation) hs) d
          ∙ or_assoc (response_noted (get operation s)) (is_response_of operation h) _,
    )

-- Whatever hooks were called, in whatever order, a new store says of every operation whether a request
-- and whether a response that declares it was seen, and mixes up no two operations.
pub call_all-notes :
    (hs : List Hook) (operation : String)
    → (request_noted (get operation (call_all hs [])) ≡ some_of (is_request_of operation) hs)
      × (response_noted (get operation (call_all hs [])) ≡ some_of (is_response_of operation) hs)
unfolding get
call_all-notes hs operation = series_lem hs operation []
