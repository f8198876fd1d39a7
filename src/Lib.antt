-- ===== src/Lib.antt =====
-- Verification of parts of yarf, an RPC framework in C++: of its code generators in tools/, which are
-- scripts in Python 2, and of its queue in shared memory.
--
-- The generator proto2bin (tools/proto2bin.py) reads a proto file (`read_proto`), finds the options
-- in the comments behind the fields (`find_field_opt`), and writes a header and a source file from
-- string templates (`gen_code`). Module Proto2bin models it: ReadProto the pass over the lines,
-- FieldOpt the options, Ctype the C++ types, Templates the string constants, GenCode the generation
-- with its early returns, exceptions and files. Proto2bin.Spec states what the two files should
-- hold, with no order of `replace` calls; Refine, RefineFile and Files relate the code to it.
--
-- Proto2bin.Driver is `get_protodesc` and `handle_proto`, over the effect of commands on the files
-- and the protobuf runtime, which are parameters.
--
-- The tool proto2obj4pb (tools/proto2obj4pb.py) writes structs that are copied to and from
-- protobuf's classes, with functions on their arrays. It repeats read_proto, find_field_opt and
-- prototype2ctype of proto2bin letter by letter, so that module Proto2obj4pb uses their models and
-- has its templates, `find_key_info` and its `gen_code`: GenCode the fields, GenFile the messages and
-- the two files. Spec states the blocks of a field and, in FileTexts, the two files; its
-- other children relate the code to it. Files and Proto2bin.Driver.Run follow whole runs of the tools.
--
-- The tool proto2conf (tools/proto2conf.py) writes a text configuration with a default for every
-- field of a root message. Module Proto2conf models `handle_proto` from the descriptor on, with
-- `gen_code` and `gen_single_code`, which call each other through the message types: Recursion is
-- about where they end, Braces about their text, Files about the root and the file.
--
-- Proto2obj4pb.Driver and Proto2conf.Driver are the ends of these two tools, over the commands and
-- the protobuf runtime as in Proto2bin.Driver.
--
-- The tool wizard2svr (tools/wizard2svr.py) lays out the directory of a new server. Module
-- Wizard2svr is its `main` behind the prompts, with `mkdir_wrapper`, over a file system as a
-- parameter: Main is about the files it leaves, Directories and Completes about its ways out.
--
-- The queue of messages in shared memory (src/yarf/channel/unlock_queue.cc) is module Channel: the
-- ring of bytes with its heads of packets, `Send`, `GetNextPack`, `Recv`, `Peek`, `Drop` and the
-- control message, in 32 bits. Channel.UnlockQueue.Fifo relates runs of calls to a list of messages.
-- A call is one step. The ring has at most 2 ^ 31 bytes, so that the sums of sizes do not wrap
-- around, and a message at most 65528, the most that the head of a packet can name. What stands in
-- the field `reserve`, which no constructor sets, is an argument of the call.
--
-- The style checker cpplint.py, which check.sh runs, is modelled in its state and its scans: module
-- Cpplint.IncludeState is `_IncludeState`, with Alphabet for the order of the paths
-- and the branches of `CheckIncludeLine`,
-- Cpplint.LintState is `_CppLintState` with `Error`, and Cpplint.Expression is the matching of brackets over lines, in both directions; Cpplint.Comments is
-- the removal of comments over several lines, with Spec as one pass that it is compared with;
-- Cpplint.FunctionState is `_FunctionState`, with the logarithm of its levels as a parameter.
--
-- Shared parts: Text has the operations of Python's byte strings that the tools call, on lists of
-- bytes. Template reads a text with marks `$$key$$` as literals and keys, and proves what chains of
-- `str.replace` do to it. Dict is a dictionary with string keys. Descriptor has the part of
-- protobuf's FileDescriptorProto that the tools read. Util is tools/yarf_util.py.
--
-- State and operations keep the source's names. A function that raises returns a `Result`, one that
-- returns early a `Flow`; both name the Python exception. The files are a dictionary from names to
-- contents, and opening a file for writing always succeeds, but in Wizard2svr. Output by `print` is
-- not modelled.
-- Texts are bytes. Python 2 keeps what comes out of a descriptor as unicode, and so all that the
-- generators mix with it; the model keeps it as bytes, and has the places where Python decodes or
-- encodes as ASCII and may raise: the look-up of a field's name in a line of the proto file
-- (`unicode_field_opt`, which Proto2bin.FieldOpt.Unicode relates to `find_field_opt`), the name of the
-- file in the macro (`gen_body`), the writing of the two files (`write_out`), and the command for an
-- include (`get_includes`). Names of messages, fields and packages are ASCII, since protoc takes no
-- others.
-- The loops are recursions over the lines, the fields or the messages, so no fuel is needed, but for
-- RemoveMultiLineComments, whose loop has the number of lines and one as its fuel: every round but
-- the last passes a line or more. The depth that proto2conf's `gen_code` takes is Python's limit on
-- the depth of calls, and at zero the call raises, as the interpreter does. Any depth above the rank
-- of the root message is enough.
--
-- Not modelled: the interactive `main` functions of the generators, the rest of the C++ library under
-- include/ and src/, whose parts are calls of the operating system and of other libraries, and the
-- style checks of cpplint.py, which are regular expressions of Python.
pub mod Common
pub mod Text
pub mod Template
pub mod Dict
pub mod Descriptor
pub mod Util
pub mod Proto2bin
pub mod Proto2obj4pb
pub mod Proto2conf
pub mod Wizard2svr
pub mod Channel
pub mod Cpplint
