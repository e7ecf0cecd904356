-- ===== src/Identity/Keys.antt =====
-- The keys of an identity: loading, the hash, signing and validating.
use reticulum.Prelude.{
  Bytes, take, drop, [], ◌++◌, Bool, false, ◌&&◌, Option, none, some, if◌then◌else◌,
}
use reticulum.Prelude.Results.{Result, ok, err}
use reticulum.Packet.Hash.{truncated_hash}
use reticulum.Identity.{Curves, Identity, half_key}

pub data IdentityError : Type 0 where
  no_private_key no_public_key : IdentityError

-- `Identity(create_keys=False)`
abbrev pub empty_identity : Identity
empty_identity = record {
  prv = none;
  sig_prv = none;
  pub_bytes = [];
  sig_pub_bytes = [];
  x_pub = none;
  sig_pub = none;
  hash = none;
}

abbrev pub get_public_key : Identity → Bytes
get_public_key i = i.pub_bytes ++ i.sig_pub_bytes

module _ (x : Curves) (sha256 : Bytes → Bytes) where
  abbrev pub update_hashes : Identity → Identity
  update_hashes i = record i { hash = some (truncated_hash sha256 (get_public_key i)) }

  -- What was set before an exception stays set.
  unfoldable pub load_public_key : Bytes → Identity → Identity
  load_public_key bytes i =
      let first = take half_key bytes in
      let second = drop half_key bytes in
      let sliced = record i { pub_bytes = first; sig_pub_bytes = second } in
      if x.accepts_x first
      then (if x.accepts_ed second
          then update_hashes (record sliced { x_pub = some first; sig_pub = some second })
          else record sliced { x_pub = some first })
      else sliced

  -- `none` where the bytes are no private keys, which raises.
  unfoldable pub load_private_key : Bytes → Identity → Option Identity
  load_private_key bytes i =
      let first = take half_key bytes in
      let second = drop half_key bytes in
      if x.accepts_prv first && x.accepts_ed_prv second
      then some (
          update_hashes (record i {
            prv = some first;
            sig_prv = some second;
            x_pub = some (x.x_public first);
            pub_bytes = x.x_public first;
            sig_pub = some (x.ed_public second);
            sig_pub_bytes = x.ed_public second;
          }))
      else none

unfoldable pub sign : Curves → Identity → Bytes → Result IdentityError Bytes
sign x i message = elim i.sig_prv [
  | none ↦ err no_private_key
  | some key ↦ ok (x.ed_sign key message)
]

-- A verification that raises is a signature that is not valid, a missing key of signatures too.
unfoldable pub validate : Curves → Identity → Bytes → Bytes → Result IdentityError Bool
validate x i signature message = elim i.x_pub [
  | none ↦ err no_public_key
  | some key ↦ elim i.sig_pub [
    | none ↦ ok false
    | some sig_key ↦ ok (x.ed_verify sig_key signature message)
  ]
]
