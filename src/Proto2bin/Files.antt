-- ===== src/Proto2bin/Files.antt =====
-- What a run of `gen_code` of tools/proto2bin.py leaves in the files.
use yarf.Common.{
  true, false, ℕ, ◌≡◌, refl, some, List, [], ◌++◌, arith, if◌then◌else◌, Flow, next, returned,
  failed, unicode_encode_error, ◌&&◌, inl, inr, Bool-cases,
}
use yarf.Text.{Text, codes, text_eq, is_ascii}
use yarf.Text.Equality.{endings_apart}
use yarf.Dict.{Dict, lookup, insert, lookup-insert}
use yarf.Descriptor.{FileDescriptor}
use yarf.Proto2bin.GenCode.{write_out, gen_code}
use yarf.Proto2bin.Spec.{spec_contents}
use yarf.Proto2bin.RefineFile.{IsClean, gen_contents_lem}

-- The texts that end up in the header and in the source; both are empty after a failure. A text that
-- is not ASCII is not written, nor the source behind such a header.
abbrev pub written : Flow (Text × Text) → Text × Text
written (next (h, cc)) =
    (if is_ascii h then h else [], if is_ascii h && is_ascii cc then cc else [])
written returned = ([], [])
written (failed e) = ([], [])

-- Of the files, the source and the header hold these texts, or nothing after an early end.
abbrev pub Holds : Text → Text → Dict Text → Dict Text → Flow (Text × Text) → Type 0
Holds header source files files' r =
    (name : Text)
    → lookup name files' ≡ (
        if text_eq source name
        then some (written r).1
        else if text_eq header name
        then some (written r).0
        else lookup name files)

-- How the call ends, with its value forgotten.
abbrev pub ending : Flow (Text × Text) → Flow (Unit {0})
ending (next (h, cc)) = if is_ascii h && is_ascii cc then next tt else failed unicode_encode_error
ending returned = returned
ending (failed e) = failed e

abbrev pub header_name : Text → Text
header_name p = p ++ codes "_binpack.h"

abbrev pub source_name : Text → Text
source_name p = p ++ codes "_binpack.cpp"

write_out-ending :
    (header source : Text) (files : Dict Text) (r : Flow (Text × Text))
    → (write_out header source files r).1 ≡ ending r
unfolding write_out
write_out-ending header source files (next (h, cc)) = elim (Bool-cases (is_ascii h)) [
  | inr e ↦ rw e refl
  | inl e ↦ elim (Bool-cases (is_ascii cc)) [ inl f ↦ rw (e, f) refl | inr f ↦ rw (e, f) refl ]
]
write_out-ending header source files returned = refl
write_out-ending header source files (failed e) = refl

names_apart : (p k : Text) → text_eq (source_name p) k ≡ true → text_eq (header_name p) k ≡ false
names_apart p k e =
    endings_apart p (codes "_binpack.cpp") (codes "_binpack.h") k (unfold text_eq in refl) e

lookup-write_out :
    (header source : Text) (apart : (k : Text) → text_eq source k ≡ true → text_eq header k ≡ false)
    (files : Dict Text) (r : Flow (Text × Text)) (name : Text)
    → lookup name (write_out header source (insert source [] (insert header [] files)) r).0 ≡ (
        if text_eq source name
        then some (written r).1
        else if text_eq header name
        then some (written r).0
        else lookup name files)
unfolding write_out
lookup-write_out header source apart files (next (h, cc)) name = elim (Bool-cases (is_ascii h)) [
  | inr e ↦ rw e (simp lookup-insert (ground arith))
  | inl e ↦ elim (Bool-cases (is_ascii cc)) [
    | inl f ↦ rw (e, f) (simp lookup-insert (ground arith))
    | inr f ↦ rw (e, f) (simp lookup-insert (ground (arith, apart name)))
  ]
]
lookup-write_out header source apart files returned name = simp lookup-insert (ground arith)
lookup-write_out header source apart files (failed e) name = simp lookup-insert (ground arith)

-- On inputs without dollars, after a run of the generator the source and the header hold the specified
-- texts, or are empty if the specification fails; a text that is not ASCII, and a source behind such a
-- header, is not written either; no other file has changed; and the call ends as the specification
-- does, or with UnicodeEncodeError at a text that is not ASCII.
pub gen_code_lem :
    (p : Text) (lines : List Text) (d : Dict (List ℕ)) (instruct : List Text)
    (desc : FileDescriptor) (files : Dict Text) (name : Text)
    → IsClean p lines desc
    → (lookup name (gen_code p lines d instruct desc files).0 ≡ (
        if text_eq (source_name p) name
        then some (written (spec_contents p lines d instruct desc)).1
        else if text_eq (header_name p) name
        then some (written (spec_contents p lines d instruct desc)).0
        else lookup name files))
      × ((gen_code p lines d instruct desc files).1
          ≡ ending (spec_contents p lines d instruct desc))
unfolding gen_code
gen_code_lem p lines d instruct desc files name h =
    let spec = spec_contents p lines d instruct desc in
    rw (gen_contents_lem p lines d instruct desc h) (
      lookup-write_out (header_name p) (source_name p) (names_apart p) files spec name,
      write_out-ending (header_name p) (source_name p) _ spec,
    )
