-- ===== src/Lib.antt =====
-- A network file server for the PlayStation 3 (ps3netsrv): it serves disc images, directories and
-- virtual ISO images over a request and reply protocol on TCP. Sources: src/main.cpp,
-- src/File.cpp and src/VIsoFile.cpp, with the headers in include/.
--
-- The parts and the files that model them:
--
-- Env.antt has what the server calls and does not implement, as parameters: the peer's socket, the
--   objects behind AbstractFile (include/AbstractFile.h) and the file system (include/compat.h), with
--   the promises that a regular file keeps (RegularFile).
-- Wire.antt has the byte order macros of include/common.h for a little-endian host.
-- Session.antt has client_t of src/main.cpp, less the fields of the accept loop, and send().
-- Path.antt has normalize_path and translate_path of src/main.cpp, which turn the path of a
--   request into one of the host; Path/Security.antt and Path/Normal.antt have the proofs.
-- Commands.antt has process_open_cmd and what the commands on paths share, Commands/Paths.antt the
--   commands create, write, delete, mkdir, rmdir, open_dir and stat of src/main.cpp.
--   Commands/Detected.antt has what an image says of its sector size, and the search for it;
--   Commands/Opened.antt and Commands/Replies.antt have the other proofs.
-- Listing.antt has process_read_dir_entry_cmd of src/main.cpp, Listing/Order.antt the proofs;
--   Listing/Items.antt has process_read_dir, Listing/Items/Bounds.antt the proofs; Listing/Whole.antt
--   has process_read_dir_cmd with its INI files, Listing/Whole/Replies.antt the proofs.
-- DirSize.antt has calculate_directory_size and process_get_dir_size_cmd of src/main.cpp,
--   DirSize/Tree.antt the trees that it sums up, DirSize/Levels.antt hosts on which it ends.
-- Serve.antt has client_thread of src/main.cpp with its dispatch, and the opcodes of include/netiso.h.
--   Serve/Untouched.antt and Serve/Reached.antt have the sessions that it goes through, Serve/Input.antt
--   and its children its end, Serve/Input/Outcomes.antt the two ways that it can end.
-- Read.antt has process_read_file_critical, process_read_cd_2048_critical_cmd and
--   process_read_file_cmd of src/main.cpp. Read/Critical.antt, Read/Sectors.antt,
--   Read/Recorded.antt and Read/Handles.antt have the proofs.
-- File.antt has File::read and File::seek of src/File.cpp for an image in several parts;
--   File/Multipart.antt has the proofs. File/Open.antt has how File::open opens the parts,
--   File/Open/Opens.antt the proofs. File/Encrypted.antt has the regions, the watermark and the
--   decryption of an encrypted image, over a cipher that is a parameter; File/Encrypted/Decrypt.antt
--   has the proofs.
-- Slots.antt has the accept loop of main(), initialize_client, and the end of client_thread with
--   finalize_client, as a step relation: a step is one critical section under clients_mutex or a
--   stretch of code that only its own thread observes. Slots/Invariant.antt has the invariant,
--   Slots/Kept.antt and its children the proofs about the steps, Slots/Safety.antt what follows.
-- Viso.antt has VIsoFile::read and seek, Viso/Build.antt the loop of VIsoFile::build that gives every
--   file its first sector, getFileSizeAndProcessMultipart, and the sizes of VIsoFile::generate.
--   Viso/Layout.antt, Viso/Parts.antt, Viso/Pieces.antt, Viso/Image.antt, Viso/ReadLaws.antt,
--   Viso/Shown.antt and Viso/Mounted.antt have the proofs.
-- Viso/Names.antt has strncpy_upper and the conversion from UTF-8 of src/VIsoFile.cpp,
--   Viso/Names/Encoded.antt the proofs.
-- Viso/Records.antt has the directory records of include/iso9660.h with findDirRecord and
--   fixDirLba, Viso/Records/Pack.antt, Viso/Records/Packed.antt and Viso/Records/Found.antt the
--   proofs.
-- Viso/Content.antt has buildContent and its loops in build; Viso/Content/Located.antt,
--   Viso/Content/Own.antt and Viso/Content/Blocks.antt have the proofs.
-- Viso/Tables.antt has buildPathTable, fixPathTableLba, fixLba and the end of build,
--   Viso/Tables/Entries.antt and Viso/Tables/Blocks.antt the proofs.
-- Viso/Volume.antt has write with the descriptors of include/iso9660.h; Viso/Volume/Fixed.antt,
--   Viso/Volume/Placement.antt and Viso/Volume/Standing.antt have the proofs.
-- Viso/Walk.antt has the walk of build over the directories, Viso/Walk/Ends.antt,
--   Viso/Walk/Linked.antt and Viso/Walk/Named.antt the proofs.
-- Viso/Generate.antt has build and generate as a whole, Viso/Generate/Image.antt and
--   Viso/Generate/Reads.antt the proofs, which join them with read.
-- Viso/Sfo.antt has parse_param_sfo and get_title_id, Viso/Sfo/Lookup.antt the proofs.
-- Viso/Open.antt has open, close and fstat, Viso/Open/Reads.antt the proofs.
-- Prelude.antt and its children have tests, lists, windows of a list, and integers.
-- Tests.antt and its children run the definitions and apply the theorems at concrete inputs.
--
-- How the parts meet: the accept loop gives a connection a slot and starts a client thread, the thread
-- hands each command to a handler, and the handlers read through AbstractFile, of which File
-- and VIsoFile are the classes. A handler is a function from a command and a Session to a Status and a Session: the session
-- holds the client, the world behind the calls, and what has been sent.
--
-- Integers are natural numbers. Where the code adds or multiplies in a type that can wrap, the modulus
-- is written out: pos in the critical read, uint32_t sector counts, uint16_t path lengths. A seek takes
-- a 64-bit offset; the promises of RegularFile cover offsets below 2^63, the range of off64_t.
--
-- Fuel: the loop of process_read_file_critical runs on fuel, with num_bytes as the fuel; a round that
-- goes on takes off at least one byte. The loop over the parts of a split file runs 99 times at most, as
-- in the code. The loop over the lines of an INI file has the text's length as fuel: a round takes at
-- least one byte. The loops of findDirRecord and fixDirLba over the records of a directory have the length of
-- its content as fuel, since a record that is met has at least one byte, and that of fixPathTableLba has
-- the size of the table: an entry has at least 8 bytes. The walk of build has the number of directories as
-- fuel; scandir, stat_file, the clock and get_rand are a host that does not change while build runs.
-- The loop of parse_param_sfo has the size of the file as fuel: a round puts the key at least a byte on.
--
-- The parts of the buffer of a virtual ISO are lists of bytes that are joined, where the code copies each
-- to its offset. A directory of the tree is a record that names its parent and children by their numbers,
-- which the code keeps as pointers. localtime is a parameter.
--
-- The sizes of calculate_directory_size are sums modulo 2^64, of which those from 2^63 on are negative;
-- its fuel is a bound on the depth of the directories, which the code leaves to its stack; that a host
-- has such a bound is a hypothesis where it matters (Nesting). client_thread
-- has a number of rounds as fuel, and a peer that sends finitely many bytes sets a number that is enough.
-- A command for which C defines no behaviour, a write behind the array of process_read_dir, has no result.
--
-- Not modelled: printing, the arguments and start-up of main(), create_iso, File::open but for
-- the parts and the table of regions, the memory that VIsoFile::reset frees, and the C files. VIsoFile2.cpp is a variant of
-- VIsoFile.cpp for another build. A served root that is empty, with which
-- the loops that look for INI files would count below 0, is not modelled: they end at 0. A recv that fails in
-- process_open_cmd gives -1, which the code keeps in 16 bits; the model has the command fail. That the
-- shutdown of a socket in the accept loop ends the recv of its thread is not modelled: a thread may end at any
-- time. Transfers that fail leave the contents of client->buf open, since the
-- connection ends there, and malloc is taken to succeed.
pub mod Prelude
pub mod DirSize
pub mod Env
pub mod Session
pub mod Wire
pub mod Listing
pub mod Path
pub mod Commands
pub mod File
pub mod Read
pub mod Serve
pub mod Slots
pub mod Tests
pub mod Viso
