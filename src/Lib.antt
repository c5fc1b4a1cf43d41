-- ===== src/Lib.antt =====
-- A model of OpenGPM (Go), which reads group policy out of Active Directory and SYSVOL: the
-- parsers, the data model and the transport that finds a domain controller and talks to it.
--
-- How the program's parts interact: `DiscoverDCs` picks domain controllers from DNS; one of them is
-- pinned, and both the LDAP connection (`ldapx`) and the SMB session (`smbx`) go to it, with the
-- identity that `krb` gets from a keytab. LDAP answers hold the gPLink attributes and security
-- descriptors that `directory` and `model` read, and the UNC paths that `smbx` opens. Settings are
-- compared by their keys.
--
-- Which file models which part:
--   Base/...               helpers: Boolean tests, lists, results, integers, bits, and the contract
--                          of `slices.SortFunc` with a sort that meets it
--   Text/...               what the code uses of Go's `strings`, `strconv`, `regexp` and `net`
--   Directory/GpLink       internal/directory/gplink.go: `ParseGPLink` and its helpers
--     its children         the identifiers, one entry, the grammar, errors, precedence, round trips,
--                          and that the loop ends
--   Directory/Reader       internal/directory/reader.go: the interface `Reader`
--   Model/Som              internal/model/som.go: `Link`, `SOM`, `WMIFilter`, and `GUID` of gpo.go
--   Model/Gpo              internal/model/gpo.go: `GPO` and its flags
--   Model/Security         internal/model/security.go: `AppliesTo` (Filter and Order prove)
--   Model/Setting          internal/model/setting.go: `Setting`, `Setting.Key` (Key proves)
--   Transport/Discover     internal/transport/discover.go: `DiscoverDCs` (Compare and Select prove)
--   Transport/Krb          internal/transport/krb/krb.go: `FromKeytab`, `classify`, `kdcKVNO` (Miss
--                          is the regular expression; Versions, Causes, Login and Attempts prove)
--   Transport/Ldapx        internal/transport/ldapx/conn.go: `Dial`, `SearchSD`, `Close` (Dialling,
--                          Searching and Refusing prove)
--   Transport/Smbx/Unc     internal/transport/smbx/smbx.go: `ParseUNC` (Spec and Paths prove)
--   Transport/Smbx/Session the same file: `Dial`
--   Transport/Smbx/Client  the same file: `Client` and its methods (Mounts, Runs and Caching
--                          prove)
--   Transport/Smbx/Threads the same under many goroutines, as a step relation (Uses,
--                          Interleavings and Sequential prove)
--   Transport/Smbx/DirFs   the same file: `readDirFS`, `dirEntries`
--   Transport/Replica      `Dial` and `Conn.DC` of ldapx with the `Dial` of smbx: one controller
--   Transport/Smbx/Walks   a walk of the file system that `Client.FS` returns (Order proves that it
--                          is deterministic)
--   Transport/Fstest       internal/transport/fstest/fstest.go: `GPTFS` (Files and Gpt prove) and
--                          `FaultFS` (Faults and Walks prove; Prune is the tree below the faults)
--   Fs                     what these rely on of Go's io/fs: `fs.ReadDir`
--     Fs/Walk              `fs.WalkDir` (Visits and Same prove)
--     Fs/MapFs             the `MapFS` of testing/fstest (Children, Paths, Listing and Opening
--                          prove)
--     Fs/Tree              trees of directories, and what a walk of one meets
--   Store                  internal/store/store.go: the types, and the interface `Store` (Contract is
--                          what its comments promise)
--   Capture                scripts/capture-gpo/main.go: `readEnv`, `record`, and what `run` keeps of
--                          a search (Record, Kept, Entries and Settings
--                          prove)
--     Run                  `run`, `write` and `main`: the same composed with the models of
--                          `FromKeytab`, `Dial` and `SearchSD` (Allowed, Closing, Safety, Written
--                          and Fixture prove)
--   Tests/...              runs on concrete inputs, and the theorems at inputs that meet them
--
-- How the state and the operations correspond. A Go string is its list of bytes, and a list of code
-- points after `[]rune(s)`. A pair `(value, error)` is a `Result`, an error its constructor. The
-- numbers are naturals; where the code works in uint32, uint8 or uint64 the wrap-around is written
-- out. What the network does is kept as a list of the calls made, so the order of the calls can be
-- stated; what it answers is an arbitrary function of the call, and of the calls before it where a
-- part calls more than once.
--
-- Loops are structural recursions, but for those of `ParseGPLink` and `strings.TrimSpace`, which
-- consume a text by more than a byte: they run on fuel, which is the length of the text, and each
-- round takes at least one byte. Numbers are printed with ten digits of fuel, enough for a uint32.
-- The fuel of `fs.WalkDir` bounds the depth that it goes down to; the depth of the tree is enough.
--
-- Parameters, for code that is not in the repository: Unicode's case mappings (`wide`), which
-- `strings.ToUpper` and `ToLower` use beyond ASCII; the DNS resolver; the sort behind
-- `slices.SortFunc` and `sort.Slice`, by the contract `Sorter` (its result is sorted and a
-- rearrangement); `fs.ValidPath`, gokrb5, go-ldap, go-smb2, `x509`, base64 and the file system, as
-- functions; and the order in which Go meets the entries of a map: for `kdcCodes` and `GPTFS` a
-- list, for the mounted shares a function, which a theorem on it asks to rearrange its argument. Some
-- theorems ask something of what these functions answer: that a second login succeeds after a first
-- one that failed for its key version; that the shares and the files of an SMB server
-- stay what they are; and, of a walk, that the opened directories form a finite tree.
--
-- Goroutines. The methods of the SMB client are modelled twice: as functions, for one caller, and as
-- steps, for any number of them. The mutex covers all of a mount and all of `Close`, so a mount is
-- one step that waits for a running close, and a close is one step for each share and one for the
-- log-off. A goroutine that has its share calls on it without the mutex, and so does a file
-- system that `FS` returned, so a close may come first.
--
-- Not modelled: the wording of what scripts/capture-gpo prints, and the encoder of its file; contexts,
-- but for one that has ended when `SearchSD` starts; the lab scripts and the test data. The
-- interfaces of internal/store and internal/directory/reader.go have no implementation here, so
-- they are records of operations, and for the store a contract.
pub mod Base
pub mod Capture
pub mod Directory
pub mod Fs
pub mod Model
pub mod Store
pub mod Tests
pub mod Text
pub mod Transport
