-- ===== src/Tests/Bus.antt =====
-- A bus with one or two slaves.
use libmbus.Base.{ℕ, ◌≡◌, refl, sym, subst, ◌∙◌, pos, List, [], ◌∷◌, overlay, replicate, ap}
use libmbus.Frame.{Frame, ack, long, zero_frame}
use libmbus.Address.{get_secondary_address, header_address, hex_long}
use libmbus.Data.Outcome.{done, check}
use libmbus.Data.Fixed.{frame_data_parse}
use libmbus.Data.Variable.{data_variable_parse, records_loop, parse_header}
use libmbus.Codec.Bcd.{bcd_decode_hex}
use libmbus.Link.Serial.{RecvResult, ok, invalid, timeout}
use libmbus.Master.Handle.{Handle, default_handle, purge_none, Transport, Run}
use libmbus.Master.Select.{probe_secondary_address}
use libmbus.Master.Scan.Slaves.{only}
use libmbus.Master.Scan.Complete.{IsMask}
use libmbus.Master.Leads.{Leads, Yields}
use libmbus.Master.Receive.{recv_frame, is_echo, purge_frames, purge_loop, goes_on, send_frame}
use libmbus.Master.Bus.Probing.{probe_secondary_address-Leads}
use libmbus.Master.Bus.{
  Stage, idle, clashing, answered, trailing, waiting, acknowledged, chosen, asked, acknowledgement,
  Answers, answer, garbled, Purges, noise_ends, answer_ends, rest_ends, no_more, IsHeard, BusFor,
}

abbrev first_slave : List ℕ
first_slave =
    b'1' ∷ b'2' ∷ b'3' ∷ b'4' ∷ b'5' ∷ b'6' ∷ b'7' ∷ b'8' ∷ b'2' ∷ b'4' ∷ b'4' ∷ b'0' ∷ b'0' ∷ b'1'
    ∷ b'0' ∷ b'7' ∷ []

abbrev all_wild : List ℕ
all_wild = replicate 16 b'F'

all_wild-IsMask : IsMask all_wild
unfolding libmbus.Address.all_xdigits libmbus.Address.isxdigit libmbus.Codec.Text.digit_value
all_wild-IsMask = (refl, refl)

-- The answer of the first slave: a header without records.
abbrev pub its_answer : Frame
its_answer = record zero_frame {
  control = 0x08;
  control_information = 0x72;
  content = overlay (0x78 ∷ 0x56 ∷ 0x34 ∷ 0x12 ∷ 0x24 ∷ 0x40 ∷ 1 ∷ 7 ∷ []) (replicate 252 0);
  data_size = 12;
  type = long;
}

its_address : get_secondary_address its_answer ≡ done first_slave
unfolding get_secondary_address frame_data_parse check data_variable_parse records_loop
    header_address hex_long bcd_decode_hex parse_header
its_address = refl

-- A bus with this slave alone: the state is the stage.
abbrev hears : Stage → Frame → RecvResult × Frame × Stage
hears idle f = (timeout, f, idle)
hears clashing f = (timeout, f, idle)
hears answered f = (timeout, f, idle)
hears trailing f = (invalid, f, clashing)
hears (waiting []) f = (timeout, f, idle)
hears (waiting (a ∷ others)) f = (ok, record f { type = ack }, acknowledged a others)
hears (acknowledged a others) f = (timeout, f, chosen a others)
hears (chosen a others) f = (timeout, f, chosen a others)
hears (asked a []) f = (ok, its_answer, answered)
hears (asked a (b ∷ others)) f = (invalid, f, clashing)

-- A select frame reaches the slave if the mask has its digits or wildcards.
abbrev told : Stage → Stage
told idle = waiting (first_slave ∷ [])
told (chosen a others) = asked a others
told stage = stage

abbrev one_slave : Transport Stage
one_slave = record { recv = λ stage f. hears stage f; send = λ stage f. (pos 0, f, told stage) }

abbrev pub quiet_handle : Handle
quiet_handle = record default_handle { purge_first_frame = purge_none }

abbrev At : Stage → Stage → Type 0
At stage s = s ≡ stage

stage-Leads {ℓ} :
    {A : Type ℓ} {Q : A → Stage → Type 0} {m : Run Stage A} (stage : Stage)
    → Yields Q (m stage)
    → Leads (At stage) Q m
stage-Leads {Q = Q} {m = m} stage y = record {
  leads = λ s e. subst (λ s. Yields Q (m s)) (sym e) y;
}

one_slave-Answers :
    (a : List ℕ) (others : List (List ℕ))
    → first_slave ∷ [] ≡ a ∷ others
    → Yields
        (λ r s. (next : Stage) × Answers a others r.0 r.1 next × At next s)
        (recv_frame one_slave quiet_handle zero_frame (asked a others))
unfolding recv_frame is_echo
one_slave-Answers a [] e =
    let same : first_slave ≡ a = cc in (answered, answer refl (its_address ∙ ap done same), refl)
one_slave-Answers a (b ∷ others) e = (clashing, garbled, refl)

one_slave-Purges :
    (stage : Stage)
    → IsHeard stage
    → Yields
        (λ b s. (next : Stage) × Purges stage b next × At next s)
        (purge_frames one_slave quiet_handle 3 stage)
unfolding recv_frame is_echo purge_frames purge_loop goes_on
one_slave-Purges clashing i = (idle, noise_ends, refl)
one_slave-Purges answered i = (idle, answer_ends, refl)
one_slave-Purges trailing i = (idle, rest_ends, refl)
one_slave-Purges (acknowledged a others) i = (chosen a others, no_more, refl)
one_slave-Purges idle i = absurd i
one_slave-Purges (waiting slaves) i = absurd i
one_slave-Purges (chosen a others) i = absurd i
one_slave-Purges (asked a others) i = absurd i

one_slave-BusFor : BusFor one_slave quiet_handle 3 At all_wild (first_slave ∷ [])
unfolding recv_frame is_echo send_frame
one_slave-BusFor = record {
  selects = stage-Leads idle (refl, refl);
  acknowledges = stage-Leads (waiting (first_slave ∷ [])) (_, acknowledgement refl, refl);
  requests = λ a others. stage-Leads (chosen a others) (refl, refl);
  answers = λ a others e. stage-Leads (asked a others) (one_slave-Answers a others e);
  purges = λ stage i. stage-Leads stage (one_slave-Purges stage i);
}

probe_secondary_address-Leads_example :
    Leads
      (At idle)
      (λ x s. (x ≡ only (first_slave ∷ [])) × At idle s)
      (probe_secondary_address one_slave quiet_handle 3 all_wild)
probe_secondary_address-Leads_example =
    probe_secondary_address-Leads one_slave-BusFor all_wild-IsMask
