-- ===== src/Http/Tests.antt =====
-- Concrete runs of the web server.
use mw_race_service_mesh_c.Base.{
  ℕ, ◌≤◌, ◌≡◌, refl, true, false, some, List, [], ◌∷◌, ◌++◌, arith, take, drop, replicate,
}
use mw_race_service_mesh_c.Base.Int.{pos}
use mw_race_service_mesh_c.Http.Types.{HsChannel, content}
use mw_race_service_mesh_c.Http.Decoder.{decode_loop}
use mw_race_service_mesh_c.Http.Decoder.Ends.{decode_loop-ends}
use mw_race_service_mesh_c.Http.Types.{init_channel}
use mw_race_service_mesh_c.Base.CString.{atoi}
use mw_race_service_mesh_c.Http.Decoder.{decode_byte}
use mw_race_service_mesh_c.Http.Decoder.Scan.{line, channel_at, advance}
use mw_race_service_mesh_c.Http.Decoder.Scanned.{decode_byte-scan}
use mw_race_service_mesh_c.Http.Decoder.Heads.{Header, IsHead, head_bytes, content_length}
use mw_race_service_mesh_c.Http.Io.Delivered.{reads, Delivers}
use mw_race_service_mesh_c.Http.Io.Requests.{request-Delivers, Silent, request-Silent}
use mw_race_service_mesh_c.Http.Io.{io_write, response_ok, io_read, bytes}
use mw_race_service_mesh_c.Http.Io.Written.{Sends, io_write-Sends}
use mw_race_service_mesh_c.Http.Io.Answer.{Answered, response_ok-Answered}

abbrev channel : HsChannel
channel = record {
  is_line = true;
  is_head = true;
  is_body = true;
  is_read_done = false;
  is_key = true;
  is_content_length = false;
  key_start = 0;
  value_start = 0;
  processing_end = 0;
  decode_index = 0;
  body_size = pos 0;
  body_start = 0;
  read_index = 0;
  write_index = 0;
  write_size = 0;
  buffer_size = 60;
  buffer = replicate 60 0;
}

response_ok-Answered_example :
    Answered channel (79 ∷ 75 ∷ []) 2 (response_ok channel (79 ∷ 75 ∷ []) 2)
response_ok-Answered_example =
    response_ok-Answered channel (79 ∷ 75 ∷ []) 2 refl (omega arith) (omega arith)

abbrev writing : HsChannel
writing = record channel { write_size = 5; buffer = 1 ∷ 2 ∷ 3 ∷ 4 ∷ 5 ∷ replicate 55 0 }

io_write-Sends_example : Sends writing (some 3) (io_write writing (some 3))
io_write-Sends_example = io_write-Sends writing (some 3) (omega arith)

-- "P /\r\nContent-Length:2\r\n\r\nab", in two pieces.
abbrev first_piece : List ℕ
first_piece =
    80 ∷ 32 ∷ 47 ∷ 13 ∷ 10 ∷ 67 ∷ 111 ∷ 110 ∷ 116 ∷ 101 ∷ 110 ∷ 116 ∷ 45 ∷ 76 ∷ 101 ∷ 110 ∷ 103 ∷ []

abbrev second_piece : List ℕ
second_piece = 116 ∷ 104 ∷ 58 ∷ 50 ∷ 13 ∷ 10 ∷ 13 ∷ 10 ∷ 97 ∷ 98 ∷ []

decoded_in_two :
    (io_read (io_read channel (bytes first_piece)).channel (bytes second_piece)).handled
    ≡ content (pos 2) (97 ∷ 98 ∷ replicate 33 0) ∷ []
unfolding io_read
decoded_in_two = refl

-- The two bytes that a channel has read.
abbrev reading : HsChannel
reading = record channel { processing_end = 2; buffer = 80 ∷ 32 ∷ replicate 58 0 }

decode_loop-ends_example :
    ((decode_loop 2 reading).0.processing_end ≡ 2) × (2 ≤ (decode_loop 2 reading).0.decode_index)
decode_loop-ends_example = decode_loop-ends 2 reading (omega arith)

-- "POST /", "Content-Length:2" and "ab", in three pieces.
abbrev post_line : List ℕ
post_line = 80 ∷ 79 ∷ 83 ∷ 84 ∷ 32 ∷ 47 ∷ []

abbrev length_two : Header
length_two =
    (67 ∷ 111 ∷ 110 ∷ 116 ∷ 101 ∷ 110 ∷ 116 ∷ 45 ∷ 76 ∷ 101 ∷ 110 ∷ 103 ∷ 116 ∷ 104 ∷ [], 50 ∷ [])

abbrev post : List ℕ
post = head_bytes post_line (length_two ∷ [])

post-IsHead : IsHead post_line (length_two ∷ [])
post-IsHead = record {
  text = ground arith;
  three = omega arith;
  no_get = refl;
  headers = ground arith;
}

abbrev in_three : List (List ℕ)
in_three = take 9 post ∷ (drop 9 post ++ (97 ∷ [])) ∷ (98 ∷ []) ∷ []

two : content_length (pos 0) (length_two ∷ []) ≡ pos 2
unfolding atoi
two = refl

request-Delivers_example : Delivers (97 ∷ 98 ∷ []) (reads (init_channel channel) in_three)
request-Delivers_example =
    request-Delivers channel post_line (length_two ∷ []) (97 ∷ 98 ∷ []) in_three post-IsHead two
      (omega arith) refl (omega arith) (omega arith) refl

request-Silent_example : Silent (reads (init_channel channel) (take 9 post ∷ drop 9 post ∷ []))
request-Silent_example =
    request-Silent channel post_line (length_two ∷ []) (take 9 post ∷ drop 9 post ∷ []) post-IsHead
      refl (omega arith)

-- The automaton and the decoder on the first byte of a request.
decode_byte-scan_example :
    advance (decode_byte (channel_at channel (line []) post))
    ≡ (channel_at channel (line (80 ∷ [])) (drop 1 post), [])
decode_byte-scan_example = decode_byte-scan channel (line []) 80 (drop 1 post) (λ e. cc)
