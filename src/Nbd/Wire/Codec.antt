-- ===== src/Nbd/Wire/Codec.antt =====
-- Numbers and requests on the wire: what is sent is what is read.
use lw_nbd.Prelude.{
  ℕ, zero, suc, ◌+◌, ◌*◌, ◌/◌, ◌%◌, ◌^◌, ◌<◌, ◌≡◌, refl, sym, ap, ◌∙◌, List, [], ◌∷◌, ◌++◌,
  append_assoc, length, length-append, take, take-append, drop, drop-append, drop-append_more,
  arith,
}
use lw_nbd.Nbd.Wire.{be, be_from, of_be, Request, decode_request, encode_request}

be_from-append :
    (acc : ℕ) (xs : List ℕ) (b : ℕ) → be_from acc (xs ++ (b ∷ [])) ≡ be_from acc xs * 256 + b
unfolding be_from
be_from-append acc [] b = refl
be_from-append acc (x ∷ xs) b = be_from-append (acc * 256 + x) xs b

-- `n` has at most `k` bytes.
abbrev HasBytes : ℕ → ℕ → Type 0
HasBytes zero n = n ≡ 0
HasBytes (suc k) n = HasBytes k (n / 256)

be_from-be : (k n : ℕ) → HasBytes k n → be_from 0 (be k n) ≡ n
unfolding be be_from
be_from-be zero n h = sym h
be_from-be (suc k) n h =
    be_from-append 0 (be k (n / 256)) (n % 256)
    ∙ ap (λ q. q * 256 + n % 256) (be_from-be k (n / 256) h)
    ∙ omega arith

-- A number of 16, 32 or 64 bits is read back as it was written.
pub of_be-be2 : (n : ℕ) → n < 2 ^ 16 → of_be (be 2 n) ≡ n
unfolding of_be
of_be-be2 n h = be_from-be 2 n (omega arith)

pub of_be-be4 : (n : ℕ) → n < 2 ^ 32 → of_be (be 4 n) ≡ n
unfolding of_be
of_be-be4 n h = be_from-be 4 n (omega arith)

pub of_be-be8 : (n : ℕ) → n < 2 ^ 64 → of_be (be 8 n) ≡ n
unfolding of_be
of_be-be8 n h = be_from-be 8 n (omega arith)

pub length-be : (k n : ℕ) → length (be k n) ≡ k
unfolding be
length-be zero n = refl
length-be (suc k) n = length-append (be k (n / 256)) _ ∙ omega (arith, length-be k (n / 256))

-- The fields of a request have the widths of `struct nbd_request`.
pub record IsWellSized (r : Request) : Type 0 where
  pub magic : r.magic < 2 ^ 32
  pub flags : r.flags < 2 ^ 16
  pub type : r.type < 2 ^ 16
  pub handle : length r.handle ≡ 8
  pub offset : r.offset < 2 ^ 64
  pub count : r.count < 2 ^ 32

-- Of the 28 bytes that a client has written for a request, whatever lies behind them in the buffer,
-- the server reads that request.
pub decode_request-encode_request :
    (r : Request) (tail : List ℕ) → IsWellSized r → decode_request (encode_request r ++ tail) ≡ r
unfolding decode_request encode_request be
decode_request-encode_request r tail w = λ i. record {
  magic = of_be-be4 r.magic w.magic i;
  flags = of_be-be2 r.flags w.flags i;
  type = of_be-be2 r.type w.type i;
  handle = (ap (take 8) regroup ∙ take-append 8 r.handle rest (sym w.handle)) i;
  offset =
      (ap (λ l. of_be (take 8 (drop 8 l))) regroup
          ∙ ap (λ l. of_be (take 8 l)) (drop-append 8 r.handle rest (sym w.handle))
          ∙ of_be-be8 r.offset w.offset)
        i;
  count =
      (ap (λ l. of_be (take 4 (drop 16 l))) regroup
          ∙ ap (λ l. of_be (take 4 l)) (drop-append_more 8 8 r.handle rest (sym w.handle))
          ∙ of_be-be4 r.count w.count)
        i;
}
  where
    rest : List ℕ
    rest = (be 8 r.offset ++ be 4 r.count) ++ tail

    regroup : (r.handle ++ (be 8 r.offset ++ be 4 r.count)) ++ tail ≡ r.handle ++ rest
    regroup = append_assoc r.handle (be 8 r.offset ++ be 4 r.count) tail

pub length-encode_request : (r : Request) → length r.handle ≡ 8 → length (encode_request r) ≡ 28
unfolding encode_request be
length-encode_request r h = omega (arith, length-append r.handle (be 8 r.offset ++ be 4 r.count))
