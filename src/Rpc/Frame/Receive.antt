-- ===== src/Rpc/Frame/Receive.antt =====
-- What `RecvPackageData` of rpc/msg.go makes of a stream that `SendMessage` filled.
use rocommon.Prelude.{
  if◌then◌else◌, ◌||◌, ◌==◌, ◌∙◌, ℕ, ◌%◌, ◌^◌, ◌<◌, ◌≤◌, ◌≡◌, refl, List, [], ◌∷◌, ◌++◌, arith,
  length, append_assoc,
}
use rocommon.Rpc.Fault.{err, eof, unexpected_eof, ok}
use rocommon.Rpc.Frame.{put_uint16, put_uint32, read_full, recv_body, recv_package_data, frame}
use rocommon.Rpc.Frame.Bytes.{
  uint16-put_uint16, uint32-put_uint32, read_full-append, length-put_uint16, length-put_uint32,
}

-- The header is read back, whatever the body.
recv_header :
    (len id seq flag max : ℕ) (rest : List ℕ)
    → len < 2 ^ 16
    → id < 2 ^ 16
    → seq < 2 ^ 32
    → flag < 2 ^ 16
    → recv_package_data
        (put_uint16 len ++ (put_uint16 id ++ (put_uint32 seq ++ (put_uint16 flag ++ rest))))
        max
      ≡ recv_body max len id seq flag rest
unfolding recv_package_data
recv_header len id seq flag max rest hl hi hs hf = ground (
  arith,
  read_full-append (put_uint16 len)
      (put_uint16 id ++ (put_uint32 seq ++ (put_uint16 flag ++ rest))),
  read_full-append (put_uint16 id) (put_uint32 seq ++ (put_uint16 flag ++ rest)),
  read_full-append (put_uint32 seq) (put_uint16 flag ++ rest),
  read_full-append (put_uint16 flag) rest,
  length-put_uint16 len,
  length-put_uint16 id,
  length-put_uint16 flag,
  length-put_uint32 seq,
  uint16-put_uint16 len,
  uint16-put_uint16 id,
  uint32-put_uint32 seq,
  uint16-put_uint16 flag,
)

frame-append :
    (id seq ct : ℕ) (body rest : List ℕ)
    → frame id seq ct body ++ rest
      ≡ put_uint16 (length body % 2 ^ 16)
        ++ (put_uint16 id ++ (put_uint32 seq ++ (put_uint16 ct ++ (body ++ rest))))
unfolding frame
frame-append id seq ct body rest = simp append_assoc

recv_body-append :
    (id seq ct max : ℕ) (body rest : List ℕ)
    → max < 2 ^ 16
    → length body ≤ max
    → recv_body max (length body % 2 ^ 16) id seq ct (body ++ rest)
      ≡ ok (record { msg_id = id; msg_seq_id = seq; msg_flag_id = ct; msg_data = body }, rest)
unfolding recv_body
recv_body-append id seq ct max [] rest hm h = refl
recv_body-append id seq ct max (b ∷ body) rest hm h =
    ground (arith, read_full-append (b ∷ body) rest)

module _ (id seq ct max : ℕ) (body rest : List ℕ) (hi : id < 2 ^ 16) (hs : seq < 2 ^ 32)
    (hc : ct < 2 ^ 16) (hm : max < 2 ^ 16) where
  -- A framed body within the limit comes back with its id, sequence number and flag, and the stream
  -- stands after it.
  pub recv_package_data-frame :
      length body ≤ max
      → recv_package_data (frame id seq ct body ++ rest) max
        ≡ ok (record { msg_id = id; msg_seq_id = seq; msg_flag_id = ct; msg_data = body }, rest)
  unfolding recv_body
  recv_package_data-frame h = rw (frame-append id seq ct body rest) (
      recv_header (length body % 2 ^ 16) id seq ct max (body ++ rest) (omega arith) hi hs hc
      ∙ recv_body-append id seq ct max body rest hm h)

  -- A body over the receiver's limit comes back as an empty one, with no error, and its bytes stay
  -- in the stream, where the next call takes them for a header.
  pub recv_package_data_oversize :
      max < length body
      → length body < 2 ^ 16
      → recv_package_data (frame id seq ct body ++ rest) max
        ≡ ok (
          record { msg_id = id; msg_seq_id = seq; msg_flag_id = ct; msg_data = [] },
          body ++ rest,
        )
  unfolding recv_body
  recv_package_data_oversize h lt = rw (frame-append id seq ct body rest) (
      recv_header (length body % 2 ^ 16) id seq ct max (body ++ rest) (omega arith) hi hs hc
      ∙ ground arith)

-- A stream that ends within the header gives an error: io.EOF where it ends between two fields,
-- io.ErrUnexpectedEOF where it ends inside one.
pub recv_package_data_truncated :
    (stream : List ℕ) (max : ℕ)
    → length stream < 10
    → recv_package_data stream max ≡ (
        let n = length stream in
        if n == 0 || n == 2 || n == 4 || n == 8 then err eof else err unexpected_eof)
unfolding recv_package_data read_full
recv_package_data_truncated [] max h = refl
recv_package_data_truncated (a ∷ []) max h = refl
recv_package_data_truncated (a ∷ b ∷ []) max h = refl
recv_package_data_truncated (a ∷ b ∷ c ∷ []) max h = refl
recv_package_data_truncated (a ∷ b ∷ c ∷ d ∷ []) max h = refl
recv_package_data_truncated (a ∷ b ∷ c ∷ d ∷ e ∷ []) max h = refl
recv_package_data_truncated (a ∷ b ∷ c ∷ d ∷ e ∷ f ∷ []) max h = refl
recv_package_data_truncated (a ∷ b ∷ c ∷ d ∷ e ∷ f ∷ g ∷ []) max h = refl
recv_package_data_truncated (a ∷ b ∷ c ∷ d ∷ e ∷ f ∷ g ∷ i ∷ []) max h = refl
recv_package_data_truncated (a ∷ b ∷ c ∷ d ∷ e ∷ f ∷ g ∷ i ∷ j ∷ []) max h = refl
recv_package_data_truncated (a ∷ b ∷ c ∷ d ∷ e ∷ f ∷ g ∷ i ∷ j ∷ k ∷ rest) max h =
    absurd (omega arith)
