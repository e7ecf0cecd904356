-- ===== src/Resource/Served.antt =====
-- Requests between the two sides of a resource.
use mathlib.Core.Path.{subst}
use reticulum.Prelude.{
  ℕ, zero, suc, ◌+◌, ◌*◌, ◌/◌, ◌≡◌, refl, ◌⊎◌, inl, inr, ap, ◌∙◌, sym, Bytes, List, [], ◌∷◌, ◌++◌,
  length, length-append, length-take, length-drop, take, drop, take-append, drop-append, All, Bool,
  true, false, not, ◌&&◌, Option, none, some, arith, if◌then◌else◌,
}
use reticulum.Transport.Announces.{contains}
use reticulum.Resource.{Status, transferring, awaiting_proof, maphash_len, collision_guard_size}
use reticulum.Resource.Slices.{slices, join, drop-add}
use reticulum.Resource.Assemble.{hash_bytes}
use reticulum.Resource.Request.{is_failed}
use reticulum.Resource.Serve.{
  Part, Server, request_data, read_request, hashes_of, search_scope, requested_parts, send_parts,
  mark_sent, status_after_cancel, has_raised, serve_update, Outcome, after_parts, request,
}

slices_shift :
    (size i n : ℕ) (bs : Bytes) → slices size (i + 1) n bs ≡ slices size i n (drop size bs)
unfolding slices
slices_shift size i zero bs = refl
slices_shift size i (suc n) bs =
    let place : (i + 1) * size ≡ size + i * size = grind arith in
    let same : drop ((i + 1) * size) bs ≡ drop (i * size) (drop size bs) =
      ap (λ (k : ℕ). drop k bs) place ∙ drop-add size (i * size) bs in
    ap (λ (t : Bytes). take size t ∷ slices size (i + 1 + 1) n bs) same
    ∙ ap (◌∷◌ (take size (drop (i * size) (drop size bs)))) (slices_shift size (i + 1) n bs)

slices-join :
    (size : ℕ) (hs : List Bytes)
    → All (λ h. length h ≡ size) hs
    → slices size 0 (length hs) (join hs) ≡ hs
unfolding slices join
slices-join size [] h = refl
slices-join size (x ∷ hs) (len, h) =
    let first : 0 * size ≡ 0 = omega arith in
    let head : take size (drop (0 * size) (x ++ join hs)) ≡ x =
      rw first (take-append size x (join hs) len) in
    let next : 0 + 1 ≡ 1 = omega arith in
    ap (λ (t : Bytes). t ∷ slices size 1 (length hs) (x ++ join hs)) head
    ∙ ap (◌∷◌ x) (
        slices_shift size 0 (length hs) (x ++ join hs)
        ∙ ap (slices size 0 (length hs)) (drop-append size x (join hs) len)
        ∙ slices-join size hs h)

length-join :
    (hs : List Bytes)
    → All (λ h. length h ≡ maphash_len) hs
    → length (join hs) ≡ length hs * maphash_len
unfolding join
length-join [] h = omega arith
length-join (x ∷ hs) (len, h) = omega (arith, length-append x (join hs), len, length-join hs h)

hashes_of-join : (hs : List Bytes) → All (λ h. length h ≡ maphash_len) hs → hashes_of (join hs) ≡ hs
hashes_of-join hs h =
    let count : length (join hs) / maphash_len ≡ length hs = omega (arith, length-join hs h) in
    rw count (slices-join maphash_len hs h)

-- The map hash of a request, if it has one.
abbrev pub listed : Option Bytes → List Bytes
listed none = []
listed (some h) = h ∷ []

-- A request is read as it was made: whether the hashmap is exhausted, with the last map hash that is
-- known, and the requested hashes, in order.
pub read_request-request_data :
    (hash : Bytes) (last : Option Bytes) (hs : List Bytes)
    → length hash ≡ hash_bytes
    → All (λ h. length h ≡ maphash_len) hs
    → All (λ h. length h ≡ maphash_len) (listed last)
    → read_request (request_data hash (record { last_map_hash = last; requested_hashes = hs }))
      ≡ some (record { last_map_hash = last; requested_hashes = hs })
unfolding read_request request_data
read_request-request_data hash none hs len each known =
    rw (drop-append hash_bytes hash (join hs) len, hashes_of-join hs each) refl
read_request-request_data hash (some h) hs len each known =
    let behind : drop (maphash_len + hash_bytes) (h ++ (hash ++ join hs)) ≡ join hs =
      drop-add maphash_len hash_bytes (h ++ (hash ++ join hs))
      ∙ ap (drop hash_bytes) (drop-append maphash_len h (hash ++ join hs) known.0)
      ∙ drop-append hash_bytes hash (join hs) len in
    rw (take-append maphash_len h (hash ++ join hs) known.0, behind, hashes_of-join hs each) refl

-- A part that is asked for and lies within the scope is among those that are sent.
abbrev pub IsIn : Part → List Part → Type 0
IsIn p [] = ⊥
IsIn p (q ∷ ps) = (q ≡ p) ⊎ IsIn p ps

requested_parts-IsIn :
    (hashes : List Bytes) (ps : List Part) (p : Part)
    → IsIn p ps
    → contains p.map_hash hashes ≡ true
    → IsIn p (requested_parts hashes ps)
unfolding requested_parts
requested_parts-IsIn hashes [] p h c = h
requested_parts-IsIn hashes (q ∷ ps) p (inl e) c =
    let asked : contains q.map_hash hashes ≡ true =
      ap (λ (t : Part). contains t.map_hash hashes) e ∙ c in
    rw asked (inl e)
requested_parts-IsIn hashes (q ∷ ps) p (inr h) c =
    ground (arith, requested_parts-IsIn hashes ps p h c)

serve_update-sent :
    (updates : Bool) (h : Bytes) (sent : List Part) (s : Server)
    → (serve_update updates h sent s).0.sent ≡ sent
unfolding serve_update
serve_update-sent updates h sent s = ground arith

request-sent :
    (sends : Bytes → Outcome) (updates : Bool) (last : Option Bytes) (hashes : List Bytes)
    (s : Server)
    → is_failed s.status ≡ false
    → (request sends updates (record { last_map_hash = last; requested_hashes = hashes }) s).0.sent
      ≡ requested_parts hashes (search_scope s)
unfolding request
request-sent sends updates none hashes s alive = rw alive refl
request-sent sends updates (some h) hashes s alive =
    rw (request, alive)
      (serve_update-sent updates h (requested_parts hashes (search_scope s))
        (after_parts sends hashes s))

-- A part within the scope whose map hash is requested is sent.
pub request-IsIn :
    (sends : Bytes → Outcome) (updates : Bool) (last : Option Bytes) (hashes : List Bytes)
    (s : Server) (p : Part)
    → is_failed s.status ≡ false
    → IsIn p (search_scope s)
    → contains p.map_hash hashes ≡ true
    → IsIn p
        (request sends updates
          (record { last_map_hash = last; requested_hashes = hashes })
          s).0.sent
request-IsIn sends updates last hashes s p alive h c =
    subst (IsIn p) (sym (request-sent sends updates last hashes s alive))
      (requested_parts-IsIn hashes (search_scope s) p h c)

length-mark_sent :
    (sends : Bytes → Outcome) (hashes : List Bytes) (ps : List Part)
    → length (mark_sent sends hashes ps) ≡ length ps
unfolding mark_sent
length-mark_sent sends hashes [] = refl
length-mark_sent sends hashes (p ∷ ps) = ap suc (length-mark_sent sends hashes ps)

uncounted : (b c : Bool) (n : ℕ) → c ≡ true → (if not b && not c then n + 1 else n) ≡ n
uncounted true true n h = refl
uncounted false true n h = refl
uncounted b false n h = absurd (ground arith)

send_parts-sent :
    (sends : Bytes → Outcome) (ps : List Part) (n : ℕ) (status : Status)
    → All (λ (p : Part). p.sent ≡ true) ps
    → (send_parts sends ps n status).0 ≡ n
unfolding send_parts
send_parts-sent sends [] n status h = refl
send_parts-sent sends (p ∷ ps) n status h =
    ap
      (λ (k : ℕ).
        (send_parts sends ps k
          (if has_raised (sends p.payload) then status_after_cancel status else status)).0)
      (uncounted (has_raised (sends p.payload)) p.sent n h.0)
    ∙ send_parts-sent sends ps n
        (if has_raised (sends p.payload) then status_after_cancel status else status) h.1

length-cut :
    (i n : ℕ) (xs ys : List Part)
    → length ys ≡ length (take n (drop i xs))
    → length (take i xs ++ (ys ++ drop n (drop i xs))) ≡ length xs
length-cut i n xs ys h = omega (
  arith,
  h,
  length-append (take i xs) (ys ++ drop n (drop i xs)),
  length-append ys (drop n (drop i xs)),
  length-take i xs,
  length-drop i xs,
  length-take n (drop i xs),
  length-drop n (drop i xs),
)

-- A resource that has not failed before, of which all parts were sent, waits for the proof after
-- every request that does not ask for more of the hashmap, and whose parts were all sent before:
-- whatever sending them again does. So also where it raises and cancels the resource: the status
-- that the cancellation set is overwritten.
pub request_revived :
    (sends : Bytes → Outcome) (updates : Bool) (hashes : List Bytes) (s : Server)
    → is_failed s.status ≡ false
    → All (λ (p : Part). p.sent ≡ true) (requested_parts hashes (search_scope s))
    → s.sent_parts ≡ length s.parts
    → (request sends updates
        (record { last_map_hash = none; requested_hashes = hashes })
        s).1.status
      ≡ awaiting_proof
unfolding request after_parts
request_revived sends updates hashes s alive all_sent count =
    let marked : List Part = mark_sent sends hashes (search_scope s) in
    let same =
      send_parts-sent sends (requested_parts hashes (search_scope s)) s.sent_parts transferring
        all_sent in
    let size =
      length-cut s.receiver_min_consecutive_height collision_guard_size s.parts marked
        (length-mark_sent sends hashes (search_scope s)) in
    ground (arith, alive, same, size, count)
