-- ===== src/Grpc/Streams.antt =====
-- `copy_io` of rust-proxy/src/proxy/http2/grpc_proxy.rs: the frames of a body are sent on.
pub mod Frames
use silverwind.Prelude.{
  ℕ, zero, suc, ◌+◌, ◌-◌, ◌*◌, ◌/◌, ◌%◌, ◌^◌, ◌≤◌, ◌<◌, String, ◌≡◌, refl, sym, ap, ◌∙◌, ◌≢◌, ◌↔◌,
  ◌⊎◌, inl, inr, Bool, true, false, not, ◌&&◌, ◌||◌, Option, none, some, List, [], ◌∷◌, ◌++◌, map,
  arith, eq_iff, eq_refl, ltb, leb, str_eq, ◌==◌, if◌then◌else◌, Bool-cases, Option-cases, lt→ltb,
  le→ltb, le→leb, lt→leb, length, get_elem?, is_empty, any, all, select, replicate, length-append,
  get_elem?_lt, All, All-get_elem?, All-select, select-holds, ℤ, pos, negsuc, to_u32, as_i32,
  add_i32, sub_i32, lt_ℤ, le_ℤ, min_ℤ, add_i32_pos, sub_i32_pos, as_i32_pos, Outcome, ok, err,
  panic, ◌>>=◌, ok_or, Outcome-cases, Done, or_else, and_then, map_err, ok-inj, some-inj, none≢some,
  Eq, string_eq, ◌⧺◌, contains_char, strip_prefix, is_some, starts_with, split, decimal, int_text,
  join, ends_with, contains_str,
}
use silverwind.Errors.{from, Cause}
use silverwind.External.{Http, Codecs}

-- h2's RecvStream: the chunks of a body and the trailers. An error is h2's message.
pub record RecvStream (http : Http) (codecs : Codecs) : Type 0 where
  pub chunks : List (Outcome codecs.Bytes)
  pub trailers : Outcome (Option http.HeaderMap)

-- What is sent on a stream; the mark of `send_data` ends it.
pub data Frame (http : Http) (codecs : Codecs) : Type 0 where
  data_frame : codecs.Bytes → Bool → Frame http codecs
  trailers_frame : http.HeaderMap → Frame http codecs

-- h2's SendStream and FlowControl: what they answer after the frames that were sent.
pub record SendStream (http : Http) (codecs : Codecs) : Type 0 where
  pub send : List (Frame http codecs) → Frame http codecs → Outcome Done
  pub release_capacity : List (Frame http codecs) → ℕ → Outcome Done

module _ (http : Http) (codecs : Codecs) where
  abbrev pub Frames : Type 0
  Frames = List (Frame http codecs)

  pushed : Frame http codecs → Frames → Outcome Done → Frames × Outcome Done
  pushed frame sent (ok u) = (sent ++ frame ∷ [], ok tt)
  pushed frame sent (err e) = (sent, err (from Cause.h2 e))
  pushed frame sent panic = (sent, panic)

  copy_chunk : SendStream http codecs → Outcome codecs.Bytes → Frames → Frames × Outcome Done
  unfolding pushed
  copy_chunk send_stream (ok chunk_bytes) sent =
      let frame = data_frame chunk_bytes false in
      and_then (pushed frame sent (send_stream.send sent frame)) λ sent'. (
        sent',
        map_err (from Cause.h2) (send_stream.release_capacity sent' (codecs.size chunk_bytes)),
      )
  copy_chunk send_stream (err e) sent = (sent, err (from Cause.h2 e))
  copy_chunk send_stream panic sent = (sent, panic)

  copy_chunks :
      SendStream http codecs → List (Outcome codecs.Bytes) → Frames → Frames × Outcome Done
  unfolding copy_chunk
  copy_chunks send_stream [] sent = (sent, ok tt)
  copy_chunks send_stream (chunk ∷ chunks) sent =
      and_then (copy_chunk send_stream chunk sent) (copy_chunks send_stream chunks)

  copy_trailers :
      SendStream http codecs → Outcome (Option http.HeaderMap) → Frames → Frames × Outcome Done
  unfolding pushed
  copy_trailers send_stream (ok (some header)) sent =
      pushed (trailers_frame header) sent (send_stream.send sent (trailers_frame header))
  copy_trailers send_stream (ok none) sent = (sent, ok tt)
  copy_trailers send_stream (err e) sent = (sent, ok tt)
  copy_trailers send_stream panic sent = (sent, panic)

  unfoldable pub copy_io : SendStream http codecs → RecvStream http codecs → Frames × Outcome Done
  unfolding copy_chunks copy_trailers
  copy_io send_stream recv_stream =
      and_then (copy_chunks send_stream recv_stream.chunks [])
        (copy_trailers send_stream recv_stream.trailers)
