-- ===== src/TcpHandle/Write/Wire.antt =====
-- What a socket writes, another one reads.
use node_lua.Common.{
  ℕ, ◌-◌, ◌<◌, ◌≡◌, refl, sym, ap, subst, ◌∙◌, List, [], ◌∷◌, ◌++◌, append_assoc, append-nil, map,
  none, Bool, arith, lt→ltb,
}
use node_lua.Endian
use node_lua.TcpHandle.{HeadOption, ReadSocket, packet}
use node_lua.TcpHandle.Stream.Arrival.{Arrives}
use node_lua.TcpHandle.Stream.Frames.{
  IsBetween, AllAccepted, frame, frames, frames_round_trip, log, width_pos,
}
use node_lua.TcpHandle.Write.{
  data_of, WriteRequest, WriteSocket, write_handle, write_handle_in, start_write,
}

-- All bytes that `uv_write` was given, in order.
abbrev pub wire : List (List ℕ) → List ℕ
wire [] = []
wire (bytes ∷ more) = bytes ++ wire more

wire-append : (xs ys : List (List ℕ)) → wire (xs ++ ys) ≡ wire xs ++ wire ys
wire-append [] ys = refl
wire-append (x ∷ xs) ys =
    ap (λ l. x ++ l) (wire-append xs ys) ∙ sym (append_assoc x (wire xs) (wire ys))

abbrev pub payloads : List WriteRequest → List (List ℕ)
payloads [] = []
payloads (r ∷ rs) = data_of r.payload ∷ payloads rs

module _ (env : Endian.Order) (grants : ℕ → Bool) where
  -- Requests written one after the other, and no call of libuv fails.
  pub write_all : List WriteRequest → WriteSocket → WriteSocket
  write_all [] s = s
  write_all (r ∷ rs) s = write_all rs ((write_handle env none r s).0)

  module _ (s : WriteSocket) (alive : s.write_error ≡ none) (framed : 0 < s.write_head_option.bytes)
      (r : WriteRequest) where
    after : WriteSocket
    after = (write_handle env none r s).0

    after_is : after ≡ record s {
      write_cached_reqs = s.write_cached_reqs - 1;
      handed = s.handed ++ (frame env grants s.write_head_option (data_of r.payload) ∷ []);
      in_flight = s.in_flight ++ (r ∷ []);
    }
    unfolding after write_handle start_write
    after_is =
        ap (λ o. (write_handle_in env o none r s).0) alive
        ∙ rw (lt→ltb 0 s.write_head_option.bytes framed) refl

  write_all-frames :
      (rs : List WriteRequest) (s : WriteSocket) (option : HeadOption)
      → s.write_error ≡ none
      → s.write_head_option ≡ option
      → 0 < option.bytes
      → wire (write_all rs s).handed ≡ wire s.handed ++ frames env grants option (payloads rs)
  unfolding write_all after
  write_all-frames [] s option alive same framed = sym (append-nil (wire s.handed))
  write_all-frames (r ∷ rs) s option alive same framed =
      write_all-frames rs (after s alive wide r) option (ap (λ t. t.write_error) is ∙ alive)
        (ap (λ t. t.write_head_option) is ∙ same) framed
      ∙ ap (λ l. l ++ frames env grants option (payloads rs))
          (ap (λ t. wire t.handed) is
            ∙ wire-append s.handed (frame env grants s.write_head_option (data_of r.payload) ∷ []))
      ∙ append_assoc (wire s.handed)
          (frame env grants s.write_head_option (data_of r.payload) ++ [])
          (frames env grants option (payloads rs))
      ∙ ap (λ l. wire s.handed ++ (l ++ frames env grants option (payloads rs)))
          (append-nil (frame env grants s.write_head_option (data_of r.payload)))
      ∙ ap
          (λ o.
            wire s.handed
            ++ (frame env grants o (data_of r.payload) ++ frames env grants option (payloads rs)))
          same
    where
      wide : 0 < s.write_head_option.bytes
      wide = omega (arith, framed, ap (λ o. o.bytes) same)

      is : after s alive wide r ≡ record s {
        write_cached_reqs = s.write_cached_reqs - 1;
        handed = s.handed ++ (frame env grants s.write_head_option (data_of r.payload) ∷ []);
        in_flight = s.in_flight ++ (r ∷ []);
      }
      is = after_is s alive wide r

  -- From one socket to another: the bytes of the requests that the writer has handed to libuv, when
  -- they arrive, cut into chunks in any way, at a reader with the same length header, reach its log
  -- as one packet for each request, in their order and with their data. The reader is between two
  -- frames, and accepts each length.
  pub write_all-read :
      (writer : WriteSocket) (rs : List WriteRequest) (reader reader' : ReadSocket)
      → writer.write_error ≡ none
      → writer.handed ≡ []
      → writer.write_head_option ≡ reader.read_head_option
      → IsBetween reader
      → AllAccepted env grants reader.read_head_option (payloads rs)
      → Arrives env grants reader (wire (write_all rs writer).handed) reader'
      → log reader' ≡ log reader ++ map packet (payloads rs)
  write_all-read writer rs reader reader' alive fresh same between accepted arrives =
      frames_round_trip env grants reader (payloads rs) reader' between accepted (
        subst (λ bytes. Arrives env grants reader bytes reader')
          (write_all-frames rs writer reader.read_head_option alive same (width_pos between.width)
            ∙ ap (λ l. wire l ++ frames env grants reader.read_head_option (payloads rs)) fresh)
          arrives)
