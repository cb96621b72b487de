-- ===== src/Tests/Llm.antt =====
-- Tests of the responses read by clawpot-server/src/proxy/llm.rs.
use clawpot.Common.{
  All, ◌≡◌, refl, true, List, [], ◌∷◌, none, some, codes, arith, white_start, white_end,
}
use clawpot.Common.Utf8.{is_utf8}
use clawpot.Proxy.Llm.Sse.Lines.{IsValue}
use clawpot.Proxy.Llm.Sse.RoundTrip.{
  Frame, keep_alive, finished, event, IsFrame, IsPart, encode, frames_events,
}
use clawpot.Proxy.Llm.Response.{contains, process_response}
use clawpot.Proxy.Llm.Response.Streamed.{reassembled, process_response-encode}
use clawpot.Tests.Jsons.{trees, hello, world}

abbrev pub stream : List Frame
stream = keep_alive (codes "ping") ∷ event none hello [] ∷ event none world [] ∷ finished ∷ []

note-IsValue : IsValue (codes "ping")
unfolding white_start white_end
note-IsValue = record {
  nonempty = λ e. cc;
  one_line = ground arith;
  trimmed = record { at_start = refl; at_end = refl };
}

hello-IsPart : IsPart hello
unfolding white_start white_end
hello-IsPart = record {
  value = record {
    nonempty = λ e. cc;
    one_line = ground arith;
    trimmed = record { at_start = refl; at_end = refl };
  };
  unfinished = λ e. cc;
}

world-IsPart : IsPart world
unfolding white_start white_end
world-IsPart = record {
  value = record {
    nonempty = λ e. cc;
    one_line = ground arith;
    trimmed = record { at_start = refl; at_end = refl };
  };
  unfinished = λ e. cc;
}

pub stream-IsFrame : All IsFrame stream
stream-IsFrame = (note-IsValue, ((tt, hello-IsPart, tt), ((tt, world-IsPart, tt), (tt, tt))))

pub stream_utf8 : is_utf8 (encode stream) ≡ true
unfolding is_utf8 encode
stream_utf8 = refl

pub streaming :
    contains (codes "text/event-stream; charset=utf-8") (codes "text/event-stream") ≡ true
unfolding contains
streaming = refl

process_response-encode_example :
    process_response trees
      (codes "chat_completions")
      (some (codes "text/event-stream; charset=utf-8"))
      (encode stream)
    ≡ reassembled trees (codes "chat_completions") (frames_events stream)
process_response-encode_example =
    process_response-encode trees (codes "chat_completions")
      (codes "text/event-stream; charset=utf-8") stream streaming stream-IsFrame stream_utf8
