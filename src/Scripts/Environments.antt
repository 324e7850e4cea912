-- ===== src/Scripts/Environments.antt =====
-- Which frames of a renderer process get a node environment (atom/renderer/atom_renderer_client.cc).
use atom_shell.Common.{
  ℕ, ◌≡◌, refl, sym, ap, ◌∙◌, Bool, true, false, Option, none, some, List, [], ◌∷◌, ◌++◌,
  if◌then◌else◌,
}
use mathlib.Core.List.{append_assoc, append-nil}
use mathlib.Core.Path.{subst}
use atom_shell.Scripts.Frames.{
  Frame, is_guest_frame, RendererClient, new_renderer_client, or_env, set_up, set_up_main,
  did_create_script_context,
}

unfoldable pub did_create_each : List (Frame × ℕ) → RendererClient → RendererClient
did_create_each [] client = client
did_create_each ((frame, context) ∷ rest) client =
    did_create_each rest (did_create_script_context frame context client)

-- The contexts of guest frames, and those of other frames.
abbrev pub guests : List (Frame × ℕ) → List ℕ
guests [] = []
guests ((frame, context) ∷ rest) =
    if is_guest_frame frame then context ∷ guests rest else guests rest

abbrev pub others : List (Frame × ℕ) → List ℕ
others [] = []
others ((frame, context) ∷ rest) =
    if is_guest_frame frame then others rest else context ∷ others rest

abbrev pub first {ℓ} : {A : Type ℓ} → List A → List A
first [] = []
first (x ∷ xs) = x ∷ []

abbrev pub first_context : List (Frame × ℕ) → Option ℕ
first_context [] = none
first_context ((frame, context) ∷ rest) = some context

if-append :
    (b : Bool) (x : ℕ) (l r : List ℕ)
    → (if b then x ∷ (l ++ r) else (l ++ r)) ≡ (if b then x ∷ l else l) ++ r
if-append true x l r = refl
if-append false x l r = refl

if-append_other :
    (b : Bool) (x : ℕ) (l r : List ℕ)
    → (if b then l ++ r else x ∷ (l ++ r)) ≡ (if b then l else x ∷ l) ++ r
if-append_other true x l r = refl
if-append_other false x l r = refl

guests-append : (l r : List (Frame × ℕ)) → guests (l ++ r) ≡ guests l ++ guests r
guests-append [] r = refl
guests-append ((frame, context) ∷ rest) r =
    ap (λ t. if is_guest_frame frame then context ∷ t else t) (guests-append rest r)
    ∙ if-append (is_guest_frame frame) context (guests rest) (guests r)

others-append : (l r : List (Frame × ℕ)) → others (l ++ r) ≡ others l ++ others r
others-append [] r = refl
others-append ((frame, context) ∷ rest) r =
    ap (λ t. if is_guest_frame frame then t else context ∷ t) (others-append rest r)
    ∙ if-append_other (is_guest_frame frame) context (others rest) (others r)

first_context-append :
    (l : List (Frame × ℕ)) (frame : Frame) (context : ℕ)
    → or_env (first_context l) context ≡ first_context (l ++ (frame, context) ∷ [])
first_context-append [] frame context = refl
first_context-append ((g, k) ∷ rest) frame context = refl

abbrev admitted : Option ℕ → List ℕ → List ℕ
admitted none contexts = first contexts
admitted (some main) contexts = []

-- What a client that has some environments comes to.
abbrev Outcome : List (Frame × ℕ) → Option ℕ → List (Frame × ℕ) → RendererClient → Type 0
Outcome before main xs client =
    (guests client.environments ≡ guests before ++ guests xs)
    × (others client.environments ≡ others before ++ admitted main (others xs))
    × (client.uv_env ≡ first_context client.environments)

guests-snoc :
    (before : List (Frame × ℕ)) (x : Frame × ℕ) (rest : List (Frame × ℕ))
    → guests (before ++ x ∷ []) ++ guests rest ≡ guests before ++ guests (x ∷ rest)
guests-snoc before x rest =
    ap (λ t. t ++ guests rest) (guests-append before (x ∷ []))
    ∙ append_assoc (guests before) (guests (x ∷ [])) (guests rest)
    ∙ ap (λ t. guests before ++ t) (sym (guests-append (x ∷ []) rest))

others-snoc :
    (before : List (Frame × ℕ)) (frame : Frame) (context : ℕ) (r : List ℕ) (b : Bool)
    → is_guest_frame frame ≡ b
    → others (before ++ (frame, context) ∷ []) ++ r
      ≡ others before ++ (if b then r else context ∷ r)
others-snoc before frame context r b e =
    ap (λ t. t ++ r) (others-append before ((frame, context) ∷ []))
    ∙ append_assoc (others before) (others ((frame, context) ∷ [])) r
    ∙ ap (λ t. others before ++ ((if t then [] else context ∷ []) ++ r)) e
    ∙ ap (λ t. others before ++ t) (one b)
  where
    one : (c : Bool) → (if c then [] else context ∷ []) ++ r ≡ (if c then r else context ∷ r)
    one true = refl
    one false = refl

abbrev with_main : RendererClient → Option ℕ → RendererClient
with_main client main = record client { main_frame = main }

step :
    (frame : Frame) (context : ℕ) (client : RendererClient) (b : Bool)
    → is_guest_frame frame ≡ b
    → did_create_script_context frame context client ≡ (
        if b
        then set_up frame context client
        else set_up_main client.main_frame frame context client)
unfolding did_create_script_context
step frame context client b e =
    ap
      (λ t.
        if t
        then set_up frame context client
        else set_up_main client.main_frame frame context client)
      e

abbrev Continues : List (Frame × ℕ) → Type 0
Continues xs =
    (client : RendererClient) (main : Option ℕ)
    → client.uv_env ≡ first_context client.environments
    → Outcome client.environments main xs (did_create_each xs (with_main client main))

-- The client after one more context.
extended :
    (frame : Frame) (context : ℕ) (rest : List (Frame × ℕ)) (client : RendererClient)
    (main : Option ℕ) (b : Bool)
    → is_guest_frame frame ≡ b
    → client.uv_env ≡ first_context client.environments
    → Continues rest
    → Outcome client.environments main ((frame, context) ∷ rest) (
        did_create_each rest (
          if b
          then set_up frame context (with_main client main)
          else set_up_main main frame context (with_main client main)))
extended frame context rest client main true e h ih =
    let o =
      ih (set_up frame context client) main
        (ap (λ c. or_env c context) h ∙ first_context-append client.environments frame context) in
    (
      o.0 ∙ guests-snoc client.environments (frame, context) rest,
      o.1
          ∙ others-snoc client.environments frame context (admitted main (others rest)) true e
          ∙ ap
              (λ t.
                others client.environments
                ++ admitted main (if t then others rest else context ∷ others rest))
              (sym e),
      o.2,
    )
extended frame context rest client none false e h ih =
    let o =
      ih (set_up frame context client) (some frame.id)
        (ap (λ c. or_env c context) h ∙ first_context-append client.environments frame context) in
    (
      o.0 ∙ guests-snoc client.environments (frame, context) rest,
      o.1
          ∙ others-snoc client.environments frame context [] false e
          ∙ ap
              (λ t.
                others client.environments
                ++ first (if t then others rest else context ∷ others rest))
              (sym e),
      o.2,
    )
extended frame context rest client (some m) false e h ih =
    let o = ih client (some m) h in
    (
      o.0
          ∙ ap
              (λ t.
                guests client.environments ++ (if t then context ∷ guests rest else guests rest))
              (sym e),
      o.1,
      o.2,
    )

did_create_each-Outcome : (xs : List (Frame × ℕ)) → Continues xs
unfolding did_create_each
did_create_each-Outcome [] client none h = (sym (append-nil _), sym (append-nil _), h)
did_create_each-Outcome [] client (some m) h = (sym (append-nil _), sym (append-nil _), h)
did_create_each-Outcome ((frame, context) ∷ rest) client main h =
    subst (λ c. Outcome client.environments main ((frame, context) ∷ rest) (did_create_each rest c))
      (sym (step frame context (with_main client main) (is_guest_frame frame) refl))
      (extended frame context rest client main (is_guest_frame frame) refl h
        (did_create_each-Outcome rest))

-- Whatever frames get script contexts, and in whatever order: every context of a guest frame gets a node environment, of
-- the other contexts only the first one does, and the loop of libuv is wrapped by the first environment of all.
pub did_create_each-environments :
    (xs : List (Frame × ℕ))
    → (guests (did_create_each xs new_renderer_client).environments ≡ guests xs)
      × (others (did_create_each xs new_renderer_client).environments ≡ first (others xs))
      × ((did_create_each xs new_renderer_client).uv_env
          ≡ first_context (did_create_each xs new_renderer_client).environments)
did_create_each-environments xs = did_create_each-Outcome xs new_renderer_client none refl
