-- ===== src/Lib.antt =====
-- ebftpd is an FTP server. This library models the parts of it that decide: who may do what, how an
-- account changes, and how many sessions, ports and addresses are given out.
--
-- How the parts interact. A session (src/ftp/clientimpl.cpp) looks a command up in the table of
-- src/cmd/rfc/factory.cpp and runs it where its state permits. A command asks the path permissions
-- (src/acl/path.cpp) for a kind of access to a path; these ask the rules of the configuration
-- (src/acl/acl.cpp), which look at the user's name, primary group and flags, fields of the account
-- (src/acl/user.cpp). A login and a transfer ask a counter (src/ftp/logincounter.cpp,
-- transfercounter.cpp), a data connection asks for a port and an address (src/ftp/portallocator.hpp,
-- addrallocator.hpp), and an upload that is refused as a duplicate is answered by src/ftp/xdupe.cpp.
--
-- Which file models which part. A function of the source has its name here in snake case.
--   Prelude      numbers, texts as lists of character codes, signed integers, Boolean tests
--   Util         Wildcard: WildcardMatch of util/util/string.cpp; Passwd: HexEncode and HexDecode of
--                util/util/passwd.cpp; FilePath and Segments: util/util/path/path.cpp, the latter with
--                SplitSegments, JoinSegments and Resolve; Map: std::unordered_map as an association list
--   Acl.Rules    src/acl/acl.cpp, permission.cpp and flags.cpp: ACL is the record Acl, its optional
--                finalResult a field, which evaluate returns with the verdict
--   Acl.User     src/acl/user.cpp over userdata.hpp: Data has the record UserData, the setters and the
--                outcome of a call; Groups, Flags, Masks and Password one group of operations each
--   Acl.Group    src/acl/group.cpp over src/db/group/group.cpp: the object and its database record
--   Acl.Config   the settings of src/cfg/setting.hpp and config.hpp that the path permissions read
--   Acl.Access   src/acl/path.cpp: Evaluate, HiddenFile, PrivatePath, the Traits, Allowed and Filter;
--                Admission says without their loops who is let through
--   Acl.Strength src/acl/passwdstrength.hpp and ipstrength.hpp
--   Acl.Misc     src/acl/misc.cpp: what the rules of a configuration grant an account or ask of it
--   Ftp.Counters src/ftp/logincounter.cpp and transfercounter.cpp; Sessions has the abstract state, the
--                list of the open sessions, and the runs that calls make
--   Ftp.SpeedCounter  src/ftp/speedcounter.cpp; Runs has the runs of the transfers that share a counter
--   Ftp.Client   src/ftp/clientimpl.cpp with USER, PASS, AUTH and QUIT of src/cmd/rfc: the session of a
--                client; Execute has the commands, Commands, Total and Safety are about one
--                of them, Seats and Server about all sessions together
--   Cmd.Rfc      src/cmd/rfc/factory.cpp: the table of FTP commands
--   Cmd.Change   src/cmd/site/change.cpp, with ParseSize of src/cfg/util.cpp and StrToInt of
--                util/util/string.cpp: Checks has the checks of the arguments, Apply the changes of
--                the accounts and the loop over them
--   Cmd.Grpchange  src/cmd/site/grpchange.cpp: the same for groups, over src/acl/group.cpp
--   Cmd.Site     SITE of src/cmd/rfc/commands.cpp with CHPASS, DELUSER, READD and RENUSER of
--                src/cmd/site/commands.cpp; Authority says who may change an account; Credits has GIVE
--                and TAKE, over DecrCredits of src/db/user/user.cpp
--   Cmd.Nuking   src/cmd/site/nuking.cpp over src/db/user/user.cpp and src/db/stats/stats.cpp: what a
--                nuke takes and an unnuke gives back
--   Db           Names: the maps of both caches; UserCache: src/db/user/usercache.cpp and the
--                lookups without it of src/db/user/util.cpp, with the runs of src/db/replicator.cpp in
--                Replication and Lag; GroupCache: the same of src/db/group
--   Fs.Mode      src/fs/mode.cpp: NumericModeFromString, the octal modes; Symbolic has Compile and Apply,
--                with a mode_t as the function of its bits
--   Ftp.Ports    src/ftp/portallocator.hpp and addrallocator.hpp
--   Ftp.Xdupe    src/ftp/xdupe.cpp
--
-- State is passed explicitly. A setter of an account assigns and writes to the database; a Boolean says
-- whether the write reaches it, and the outcome is `returned` or `unsaved`, with the new object in both.
-- The writes stand over a NoErrorConnection (src/db/connection.hpp), which throws nothing, so the guards
-- of the setters (util::Transaction of util/util/scopeguard.hpp) never act and are left out.
-- Calls of the counters and allocators hold a mutex from start to end, so each is one step and an
-- interleaving is a sequence of steps.
--
-- A session returns `none` where an assertion fails. What a command finds outside (accounts, clock,
-- scripts, configuration) is a record Site, another one for each command of a run.
--
-- Parameters: fnmatch, the functions of boost on texts and regular expressions, OpenSSL's hash and
-- random salt, the names of groups and the owners of paths, which a record or a section holds.
--
-- Fuel: the loop of NextPort moves to another range at most once before it returns, so two passes
-- are enough; the loops of CompileSymbolicMode read a character in each pass, so the length of the text
-- is enough; all other loops are structural. Integers are unbounded, but for the products of
-- ParseSize, which wrap at 64 bits: the other counts and sizes are far below the machine's bounds. Dates
-- are numbers.
--
-- Assumed by the speed counter: durations of transfers are not negative, and no transfer is interrupted
-- in the sleep after an update but its first. Assumed of interrupts of sessions: they come between two commands.
--
-- Not modelled: sockets, threads, TLS, MongoDB's queries, the file system, most commands, the reading
-- of the configuration, statistics and text templates.
mod Prelude
pub mod Util
pub mod Acl
pub mod Ftp
pub mod Cmd
pub mod Fs
pub mod Db
