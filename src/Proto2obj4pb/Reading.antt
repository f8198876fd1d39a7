-- ===== src/Proto2obj4pb/Reading.antt =====
-- What tools/proto2obj4pb.py repeats of tools/proto2bin.py letter by letter: `read_proto`,
-- `find_field_opt`, `prototype2ctype` and `get_protodesc`, here under this tool's name.
use yarf.Common.{ℕ, Bool, Option, List, Result}
use yarf.Text.{Text}
use yarf.Dict.{Dict}
use yarf.Descriptor.{Field, FileDescriptor}
use yarf.Proto2bin.Ctype
use yarf.Proto2bin.ReadProto
use yarf.Proto2bin.FieldOpt
use yarf.Proto2bin.Driver

abbrev pub prototype2ctype : Field → Text
prototype2ctype = Ctype.prototype2ctype

abbrev pub read_proto : List Text → Result (Option ReadProto.Proto)
read_proto = ReadProto.read_proto

abbrev pub find_field_opt : Text → Text → List Text → Dict (List ℕ) → Result (Option (Text × Bool))
find_field_opt = FieldOpt.find_field_opt

abbrev pub unicode_field_opt :
    Text → Text → List Text → Dict (List ℕ) → Result (Option (Text × Bool))
unicode_field_opt = FieldOpt.unicode_field_opt

abbrev pub get_protodesc :
    Text
    → (Text → Dict Text → Dict Text)
    → (Text → Result FileDescriptor)
    → Text
    → Text
    → Dict Text
    → Dict Text × Result FileDescriptor
get_protodesc = Driver.get_protodesc
