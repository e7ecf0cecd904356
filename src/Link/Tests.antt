-- ===== src/Link/Tests.antt =====
-- Links at concrete values, with simple functions for the key exchange, the signatures, the cipher and
-- the MAC.
use reticulum.Prelude.{
  ℕ, ◌+◌, ◌≡◌, refl, ap, Bytes, replicate, bytes_eq, bytes_eq_refl, [], ◌∷◌, ◌++◌, length, Option,
  none, some, Bool, true, ◌==◌, arith,
}
use reticulum.Prelude.Results.{ok}
use reticulum.Crypto.Hkdf.{hkdf, blocks}
use reticulum.Crypto.Token.{Token, aes_256_cbc}
use reticulum.Link.{Link, pending, active, closed, timeout}
use reticulum.Link.Signalling.{signalling_bytes}
use reticulum.Link.Keys.{World, derive_key}
use reticulum.Link.Establish.{Identity, validate_request, validate_proof}
use reticulum.Link.Closing.{watchdog}
use reticulum.Link.Events.{proves, ticks, closes, IsLive, run, run-closed, watchdog-closed}
use reticulum.Link.Authentic.{IsAuthentic, run-IsAuthentic}
use reticulum.Link.Forged.{validate_proof_wrong}
use reticulum.Link.Answer.{lr_data}
use reticulum.Link.Handshake.{validate_proof-validate_request}
use reticulum.Link.Requests.{
  RequestReceipt, sent, packet_timeout, responds, checks, happen, IsUnrefused, happen-IsUnrefused,
}

abbrev shared_with : Bytes → Bytes → Option Bytes
shared_with prv [] = none
shared_with prv (x ∷ xs) = some (replicate 32 (length prv + x))

abbrev world : World
world = record {
  is_key = λ bs. length bs == 32;
  exchange = shared_with;
  public_key = λ prv. replicate 32 (length prv);
  cipher = record {
    encrypt = λ mode payload key iv. payload;
    decrypt = λ mode ciphertext key iv. ok ciphertext;
    hmac = λ key bs. replicate 32 (length bs);
  };
}

abbrev identity : Identity
identity = record {
  sign = λ bs. replicate 64 (length bs);
  validate = λ signature bs. bytes_eq signature (replicate 64 (length bs));
  sig_pub_bytes = replicate 32 9;
}

abbrev link : Link
link = record {
  status = pending;
  initiator = true;
  mode = 1;
  mtu = 500;
  link_id = replicate 16 5;
  private_key = some (1 ∷ 2 ∷ []);
  peer_pub_bytes = none;
  derived_key = none;
  token = none;
  rtt = none;
  request_time = 1000;
  establishment_timeout = 6000;
  activated_at = none;
  last_inbound = 0;
  last_outbound = 1000;
  last_keepalive = 0;
  last_proof = 0;
  last_data = 1000;
  keepalive = 360000;
  stale_time = 720000;
  attached_interface = none;
  teardown_reason = none;
}

-- The key of both sides.
abbrev key : Bytes
key = replicate 32 1 ++ replicate 32 33

abbrev symmetric :
    (a b : Bytes)
    → ◌≡◌ {A = Option Bytes}
        (some (replicate 32 (length a + length b)))
        (some (replicate 32 (length b + length a)))
symmetric a b =
    ap (λ (n : ℕ). some (replicate 32 n))
      (let e : length a + length b ≡ length b + length a = omega arith in e)

validate_proof-validate_request_example :
    (proof : Bytes) × (ld : Link) × (validate_request world identity
        (1 ∷ [])
        5000
        2
        4
        (replicate 16 5)
        (lr_data world (1 ∷ 2 ∷ []) (replicate 32 8) (0x20 ∷ 0x05 ∷ 0xDC ∷ []))
      ≡ some (proof, ld))
    × ((validate_proof world identity 6000 3 true proof link).1.status ≡ active)
    × ((validate_proof world identity 6000 3 true proof link).1.mtu ≡ ld.mtu)
    × ((validate_proof world identity 6000 3 true proof link).1.derived_key ≡ some key)
    × (ld.derived_key ≡ some key)
unfolding signalling_bytes derive_key hkdf blocks
validate_proof-validate_request_example =
    validate_proof-validate_request world identity (λ a. refl) (λ a. refl) symmetric (λ bs. refl)
      (λ bs. bytes_eq_refl (replicate 64 (length bs))) refl link (1 ∷ 2 ∷ []) (1 ∷ [])
      (replicate 32 8) (0x20 ∷ 0x05 ∷ 0xDC ∷ []) key 1500 5000 6000 2 3 4 refl refl refl refl refl
      refl refl

-- A proof of 96 bytes whose signature is wrong.
abbrev wrong_proof : Bytes
wrong_proof = replicate 96 0

validate_proof_wrong_example :
    (IsLive (validate_proof world identity 6000 3 true wrong_proof link).1.status → ⊥)
    × ((later at : ℕ) (sent' : Bool) (proof : Bytes)
        → validate_proof world identity later at sent' proof
            (validate_proof world identity 6000 3 true wrong_proof link).1
          ≡ ([], (validate_proof world identity 6000 3 true wrong_proof link).1))
validate_proof_wrong_example =
    validate_proof_wrong world identity 6000 3 true wrong_proof link (1 ∷ 2 ∷ []) refl refl refl
      refl refl

run-IsAuthentic_example : IsAuthentic world identity (
    run world identity
      (λ bs. none)
      (proves 6000 3 true wrong_proof ∷ ticks 9000 true ∷ closes 9500 true ∷ [])
      link)
run-IsAuthentic_example =
    run-IsAuthentic world identity (λ bs. none)
      (proves 6000 3 true wrong_proof ∷ ticks 9000 true ∷ closes 9500 true ∷ []) link
      (record { signed = λ live side. absurd live })

abbrev dead : Link
dead = record link { status = closed }

run-closed_example :
    (run world identity
      (λ bs. none)
      (proves 6000 3 true wrong_proof ∷ ticks 9000 true ∷ closes 9500 true ∷ [])
      dead).status
    ≡ closed
run-closed_example =
    run-closed world identity (λ bs. none)
      (proves 6000 3 true wrong_proof ∷ ticks 9000 true ∷ closes 9500 true ∷ []) dead refl

abbrev silent : Link
silent = record link {
  status = active;
  rtt = some 50;
  activated_at = some 2000;
  keepalive = 10285;
  stale_time = 20570;
}

watchdog-closed_example :
    ((watchdog 40000 true (watchdog 30000 true silent).1).1.status ≡ closed)
    × ((watchdog 40000 true (watchdog 30000 true silent).1).1.teardown_reason ≡ some timeout)
watchdog-closed_example = watchdog-closed 30000 40000 silent (λ e. cc) (omega arith) (omega arith)

abbrev token : Token
token = record {
  mode = aes_256_cbc;
  signing_key = replicate 32 1;
  encryption_key = replicate 32 33;
}

abbrev receipt : RequestReceipt
receipt = record {
  request_status = sent;
  packet_receipt = none;
  outstanding = true;
  timeout = 5000;
  response_timeout = 0;
  response = none;
  failures = 0;
  responses = 0;
}

happen-IsUnrefused_example :
    IsUnrefused
      (happen (packet_timeout ∷ checks 90000 ∷ responds (7 ∷ []) 90001 ∷ []) receipt).request_status
    × ((happen (packet_timeout ∷ checks 90000 ∷ responds (7 ∷ []) 90001 ∷ []) receipt).failures ≡ 0)
happen-IsUnrefused_example =
    happen-IsUnrefused (packet_timeout ∷ checks 90000 ∷ responds (7 ∷ []) 90001 ∷ []) receipt tt
