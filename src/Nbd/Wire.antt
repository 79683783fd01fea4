-- ===== src/Nbd/Wire.antt =====
-- The wire format: include/lwnbd/nbd-protocol.h. Structures are packed and big-endian; they are
-- lists of bytes here.
pub mod Codec
use lw_nbd.Prelude.{
  ℕ, zero, suc, ◌+◌, ◌*◌, ◌/◌, ◌%◌, ◌^◌, List, [], ◌∷◌, ◌++◌, reverse, take, drop, ◌==◌, Bool,
  if◌then◌else◌,
}

-- `htons`, `htonl`, `htobe64` at 2, 4 and 8 bytes
unfoldable pub be : ℕ → ℕ → List ℕ
be zero n = []
be (suc k) n = be k (n / 256) ++ (n % 256 ∷ [])

unfoldable pub be_from : ℕ → List ℕ → ℕ
be_from acc [] = acc
be_from acc (b ∷ bs) = be_from (acc * 256 + b) bs

-- `ntohs`, `ntohl`, `be64toh` of a field
unfoldable pub of_be : List ℕ → ℕ
unfolding be_from
of_be bs = be_from 0 bs

-- `x & (1 << k)` as a test, and `x | (1 << k)`
abbrev pub has_flag : ℕ → ℕ → Bool
has_flag k x = (x / 2 ^ k) % 2 == 1

abbrev pub add_flag : ℕ → ℕ → ℕ
add_flag k x = if has_flag k x then x else x + 2 ^ k

abbrev pub request_magic : ℕ
request_magic = 0x25609513

abbrev pub simple_reply_magic : ℕ
simple_reply_magic = 0x67446698

abbrev pub nbd_magic : ℕ
nbd_magic = 0x4e42444d41474943

abbrev pub new_version : ℕ
new_version = 0x49484156454F5054

abbrev pub rep_magic : ℕ
rep_magic = 0x3e889045565a9

-- positions of NBD_FLAG_NO_ZEROES, NBD_FLAG_HAS_FLAGS, NBD_FLAG_READ_ONLY, NBD_FLAG_SEND_FLUSH
abbrev pub flag_no_zeroes : ℕ
flag_no_zeroes = 1

abbrev pub flag_has_flags : ℕ
flag_has_flags = 0

abbrev pub flag_read_only : ℕ
flag_read_only = 1

abbrev pub flag_send_flush : ℕ
flag_send_flush = 2

-- NBD_REP_*
abbrev pub rep_ack : ℕ
rep_ack = 1

abbrev pub rep_server : ℕ
rep_server = 2

abbrev pub rep_err_unsup : ℕ
rep_err_unsup = 0x80000001

-- `struct nbd_request`, its fields in host order but for the handle, which is opaque
pub record Request : Type 0 where
  pub magic : ℕ
  pub flags : ℕ
  pub type : ℕ
  pub handle : List ℕ
  pub offset : ℕ
  pub count : ℕ

-- the conversions of a received request
unfoldable pub decode_request : List ℕ → Request
unfolding of_be
decode_request b = record {
  magic = of_be (take 4 b);
  flags = of_be (take 2 (drop 4 b));
  type = of_be (take 2 (drop 6 b));
  handle = take 8 (drop 8 b);
  offset = of_be (take 8 (drop 16 b));
  count = of_be (take 4 (drop 24 b));
}

-- The same conversions change the structure in place: on a little-endian host, which is what the
-- PS2 and x86 are, each reverses the bytes of its field. The handle is left alone.
unfoldable pub host_order : List ℕ → List ℕ
host_order b =
    reverse (take 4 b)
    ++ (reverse (take 2 (drop 4 b))
        ++ (reverse (take 2 (drop 6 b))
            ++ (take 8 (drop 8 b)
                ++ (reverse (take 8 (drop 16 b)) ++ reverse (take 4 (drop 24 b))))))

-- what a client sends for a request
unfoldable pub encode_request : Request → List ℕ
unfolding be
encode_request r =
    be 4 r.magic ++ (be 2 r.flags ++ (be 2 r.type ++ (r.handle ++ (be 8 r.offset ++ be 4 r.count))))

-- `struct nbd_simple_reply`
unfoldable pub simple_reply : ℕ → List ℕ → List ℕ
unfolding be
simple_reply error handle = be 4 simple_reply_magic ++ (be 4 error ++ handle)
