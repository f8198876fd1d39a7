-- ===== src/Proto2bin/ReadProto/Ranges.antt =====
-- `read_proto` of tools/proto2bin.py finds the lines, the ranges of the messages and the instructions.
use mathlib.Core.List.{append-nil}
use native.Mathlib.Nat.{add-zero, zero-add}
use yarf.Common.{
  ℕ, suc, ◌+◌, ◌-◌, ◌≡◌, ◌≢◌, refl, sym, ap, ◌∙◌, true, false, some, List, [], ◌∷◌, ◌++◌, arith,
  length, ok,
}
use yarf.Text.{Text, text_eq}
use yarf.Dict.{Dict, lookup, insert}
use yarf.Proto2bin.ReadProto.{
  Scan, start, LineKind, plain, bad, opens, classify, read_line, read_loop, read_proto,
}
use yarf.Proto2bin.ReadProto.Spec.{has_bad, headers, ranges, enter, alternate, instructions}
use yarf.Proto2bin.ReadProto.Step.{
  to_come, stepped, closing, opened, line_no-stepped, struct_dict-stepped, last_msg_name-stepped,
  to_come-stepped, read_line-plain, read_line-opens,
}
use yarf.Proto2bin.ReadProto.Open.{
  SameDict, IsOpen, Reads, close_open, classify-nonempty, Reads-cast, to_come-nil, lines_step,
  number_step, reopen,
}

-- The loop, once a message is open.
loop_open :
    (file : List Text) (s : Scan) (last : Text) (a : ℕ) (e : Dict (List ℕ))
    → IsOpen s last a e
    → has_bad file ≡ false
    → alternate last (headers s.line_no file) ≡ true
    → Reads
        (read_loop file s)
        (s.file_lines ++ file)
        (enter (ranges ((last, a) ∷ headers s.line_no file) (s.line_no + length file)) e)
        (s.parse_instruct ++ to_come s file)
unfolding read_loop headers ranges enter has_bad alternate
loop_open [] s last a e h hb ha =
    rw (append-nil, add-zero, to_come-nil s, append-nil) (close_open s last a e h)
loop_open (l ∷ file) s last a e h hb ha =
    go (classify l) refl (λ s' last' a' e'. loop_open file s' last' a' e')
  where
    Goal : Type 0
    Goal =
        Reads (read_loop (l ∷ file) s) (s.file_lines ++ (l ∷ file))
          (enter (ranges ((last, a) ∷ headers s.line_no (l ∷ file)) (s.line_no + suc (length file)))
            e)
          (s.parse_instruct ++ to_come s (l ∷ file))

    go :
        (k : LineKind)
        → classify l ≡ k
        → ((s' : Scan) (last' : Text) (a' : ℕ) (e' : Dict (List ℕ))
            → IsOpen s' last' a' e'
            → has_bad file ≡ false
            → alternate last' (headers s'.line_no file) ≡ true
            → Reads
                (read_loop file s')
                (s'.file_lines ++ file)
                (enter
                  (ranges ((last', a') ∷ headers s'.line_no file) (s'.line_no + length file))
                  e')
                (s'.parse_instruct ++ to_come s' file))
        → Goal
    go plain q ih =
        Reads-cast (sym loop_eq) (lines_step l file s)
          (λ i. enter (ranges ((last, a) ∷ same_headers i) (number_step l file s i)) e)
          (to_come-stepped l s file)
          (ih (stepped l s) last a e still (rw (q, has_bad) at hb) (rw (← same_headers) at ha))
      where
        loop_eq : read_loop (l ∷ file) s ≡ read_loop file (stepped l s)
        loop_eq = rw (read_line-plain l s q)

        same_headers : headers (stepped l s).line_no file ≡ headers s.line_no (l ∷ file)
        same_headers = rw (line_no-stepped, q)

        still : IsOpen (stepped l s) last a e
        still = record {
          named = last_msg_name-stepped l s ∙ h.named;
          nonempty = h.nonempty;
          entered = λ k. ap (lookup k) (struct_dict-stepped l s) ∙ h.entered k;
        }
    go bad q ih = cc (rw (q, has_bad) at hb)
    go (opens name) q ih =
        Reads-cast (sym loop_eq) (lines_step l file s) table_eq (to_come-stepped l s file) (
          ih (opened l s name new.0) name (s.line_no + 1) e' new.2 (rw (q, has_bad) at hb)
            (rw same_headers (ground (arith, rw q at ha))))
      where
        e' : Dict (List ℕ)
        e' = insert last (a ∷ (s.line_no + 1 - 1) ∷ []) e

        new :
            (d : Dict (List ℕ)) × (read_line l s ≡ ok (some (opened l s name d)))
            × IsOpen (opened l s name d) name (s.line_no + 1) e'
        new = reopen l s last name a e h q (ground (arith, rw q at ha))

        loop_eq : read_loop (l ∷ file) s ≡ read_loop file (opened l s name new.0)
        loop_eq = rw new.1

        same_headers : headers (stepped l s).line_no file ≡ headers (s.line_no + 1) file
        same_headers = ap (λ (n : ℕ). headers n file) (line_no-stepped l s)

        table_eq :
            enter
              (ranges
                ((name, s.line_no + 1) ∷ headers (stepped l s).line_no file)
                ((stepped l s).line_no + length file))
              e'
            ≡ enter
                (ranges ((last, a) ∷ headers s.line_no (l ∷ file)) (s.line_no + suc (length file)))
                e
        table_eq = rw q (λ i.
            enter (ranges ((name, s.line_no + 1) ∷ same_headers i) (number_step l file s i)) e')

-- The loop before the first message.
loop_first :
    (file : List Text) (s : Scan)
    → s.last_msg_name ≡ []
    → s.struct_dict ≡ []
    → has_bad file ≡ false
    → alternate [] (headers s.line_no file) ≡ true
    → headers s.line_no file ≢ []
    → Reads
        (read_loop file s)
        (s.file_lines ++ file)
        (enter (ranges (headers s.line_no file) (s.line_no + length file)) [])
        (s.parse_instruct ++ to_come s file)
unfolding read_loop headers ranges enter has_bad alternate
loop_first [] s hn hd hb ha hh = absurd (hh refl)
loop_first (l ∷ file) s hn hd hb ha hh = go (classify l) refl (λ s'. loop_first file s')
  where
    go :
        (k : LineKind)
        → classify l ≡ k
        → ((s' : Scan)
            → s'.last_msg_name ≡ []
            → s'.struct_dict ≡ []
            → has_bad file ≡ false
            → alternate [] (headers s'.line_no file) ≡ true
            → headers s'.line_no file ≢ []
            → Reads
                (read_loop file s')
                (s'.file_lines ++ file)
                (enter (ranges (headers s'.line_no file) (s'.line_no + length file)) [])
                (s'.parse_instruct ++ to_come s' file))
        → Reads
            (read_loop (l ∷ file) s)
            (s.file_lines ++ (l ∷ file))
            (enter (ranges (headers s.line_no (l ∷ file)) (s.line_no + suc (length file))) [])
            (s.parse_instruct ++ to_come s (l ∷ file))
    go plain q ih =
        Reads-cast (sym loop_eq) (lines_step l file s)
          (λ i. enter (ranges (same_headers i) (number_step l file s i)) [])
          (to_come-stepped l s file)
          (ih (stepped l s) (last_msg_name-stepped l s ∙ hn) (struct_dict-stepped l s ∙ hd)
            (rw (q, has_bad) at hb) (rw (← same_headers) at ha) (λ p. hh (sym same_headers ∙ p)))
      where
        loop_eq : read_loop (l ∷ file) s ≡ read_loop file (stepped l s)
        loop_eq = rw (read_line-plain l s q)

        same_headers : headers (stepped l s).line_no file ≡ headers s.line_no (l ∷ file)
        same_headers = rw (line_no-stepped, q)
    go bad q ih = cc (rw (q, has_bad) at hb)
    go (opens name) q ih =
        Reads-cast (sym loop_eq) (lines_step l file s) table_eq (to_come-stepped l s file) (
          loop_open file (opened l s name d) name (s.line_no + 1) [] still (rw (q, has_bad) at hb)
            (rw same_headers (ground (arith, rw q at ha))))
      where
        d : Dict (List ℕ)
        d = insert name ((s.line_no + 1) ∷ []) []

        still : IsOpen (opened l s name d) name (s.line_no + 1) []
        still = record { named = refl; nonempty = classify-nonempty l name q; entered = λ k. refl }

        first_step : closing name s.last_msg_name (s.line_no + 1) s.struct_dict ≡ ok d
        first_step = rw (hn, hd) (unfold text_eq in refl)

        loop_eq : read_loop (l ∷ file) s ≡ read_loop file (opened l s name d)
        loop_eq = rw (read_line-opens l s name q, first_step)

        same_headers : headers (stepped l s).line_no file ≡ headers (s.line_no + 1) file
        same_headers = ap (λ (n : ℕ). headers n file) (line_no-stepped l s)

        table_eq :
            enter
              (ranges
                ((name, s.line_no + 1) ∷ headers (stepped l s).line_no file)
                ((stepped l s).line_no + length file))
              []
            ≡ enter (ranges (headers s.line_no (l ∷ file)) (s.line_no + suc (length file))) []
        table_eq = rw q (λ i.
            enter (ranges ((name, s.line_no + 1) ∷ same_headers i) (number_step l file s i)) [])

-- A file with a message, without a bad line and without two neighbouring messages of one name is
-- read whole: the call returns its lines, a dictionary that answers as the ranges of its messages
-- entered in their order, and the lines from //gen_begin up to //gen_end.
pub read_proto_lem :
    (file : List Text)
    → has_bad file ≡ false
    → headers 0 file ≢ []
    → alternate [] (headers 0 file) ≡ true
    → (d : Dict (List ℕ)) × (read_proto file ≡ ok (some (file, d, instructions file)))
      × SameDict d (enter (ranges (headers 0 file) (length file)) [])
unfolding read_proto
read_proto_lem file hb hh ha =
    let r = loop_first file start refl refl hb ha hh in
    (r.dict, r.result, λ k. rw zero-add at (r.same k))
