-- ===== src/Lib.antt =====
-- eth-signer-mcp (apps/eth-signer-mcp): a server with two tools, sign_transaction and get_address.
-- It signs Ethereum transactions with the key of one keystore file, which it decrypts again for
-- every call.
--
-- The parts and their files. A request comes in through a handler (Server/Handlers.antt, of
-- apps/eth-signer-mcp/internal/server/handlers.go and errors.go), over HTTP behind a bearer check
-- (Server/Auth.antt, of apps/eth-signer-mcp/internal/server/auth.go). The handler calls the signer
-- (Signing/Signer.antt, of apps/eth-signer-mcp/internal/signing/signer.go and context.go), which
-- validates the request (Signing/Validate.antt, with Signing/Numbers.antt, Signing/Hex.antt and
-- Signing/Address.antt for the parsers of apps/eth-signer-mcp/internal/signing/validate.go), builds
-- the transaction (Signing/Build.antt, of build.go), and has the vault run a callback with the key
-- (Signing/Vault.antt, of decrypt.go, with Signing/Zero.antt for zero.go). The vault is made at
-- startup (Signing/Keystore.antt, of file_vault.go and vault.go). Signing/Errors.antt models
-- errors.go, Signing/Request.antt request.go and result.go. The startup is in Command/Config.antt,
-- Command/FilePerms.antt and Command/Startup.antt, of apps/eth-signer-mcp/cmd/eth-signer-mcp, and
-- Command/CommandLine.antt and Command/Program.antt make it a process with an exit status, with the
-- levels and the build information of Obs.antt (apps/eth-signer-mcp/internal/obs). The run calls a
-- transport: Server/Http.antt (http.go), with the request log of Server/RequestLog.antt
-- (reqlog.go), or Server/Tools.antt (stdio.go and server.go). Server/Handling.antt says what a
-- handler can do with a request of net/http. Signing/Sentinel.antt models the scan for leaked
-- secrets (sentinel.go and fixture_sentinel.go), and Signing/Secret.antt the values that no printer
-- shows (secret.go). Command/Logging.antt says which lines of the log are written at which level
-- (obs/log.go). Signing/Fixtures.antt is the generator of the test keystores
-- (testdata/gen_fixtures.go), and Demo.antt is the client of scripts/demo/cmd/stdio-client/main.go.
-- The modules below each of these hold the proofs, and Examples the theorems at concrete inputs.
--
-- How the code is modelled. A Go string or byte slice is a list of bytes; a function that returns a
-- value and an error returns a Result, and do stands for the early return on an error. A call of
-- the vault is a function of the memory that it changes: the vault, the buffer of the password, the
-- scalar of the key, and the list of what has happened. A deferred function is applied to the
-- memory behind the body, whether the body returns or panics. DecryptKey and SignTx can panic: an
-- Option around their result has none for it. The semaphore is the number of values in its channel.
-- What a call sees of its context is whether the wait or the check behind it was cancelled. The log
-- of the signer and of the handlers is the list of its lines.
--
-- Signing/Vault.antt runs one call from its start to its end. Signing/Vault/Sharing.antt has the
-- same calls interleave on one vault, as a step relation: a call moves by one access of what it
-- shares, so a step is a send or a receive on the semaphore, the CompareAndSwap of the address, a
-- read of a file, the key derivation, or the callback as a whole. Whether a call stops waiting is
-- part of its arguments. Signing/Service.antt has calls of SignTransaction interleave on one
-- signer, each of which moves by its own steps, or by a step of its call of the vault.
--
-- A handler of net/http is a tree of the calls that it makes on its writer, with a branch for each
-- answer to a Write. RunHTTP is the list of what it does, given how its selects go.
--
-- What the program takes from elsewhere is a parameter: go-ethereum's packages common, types and
-- keystore, json.Unmarshal and json.Marshal, SHA-256, the random source, files, the command line
-- parser, log/slog, net.Listen, http.MaxBytesHandler and the MCP SDK. The package common has laws,
-- those of its documentation (Signing/Address/Laws.antt), and so have MaxBytesHandler (Limited of
-- Server/Http/Pipeline.antt), slog (IsSlog of Command/Logging/Levels.antt) and the files of the
-- generator (IsDisk of Signing/Fixtures/Opens.antt); the modules of Examples hold instances that
-- meet them.
--
-- Bounds. The number of bits of a big.Int and its decimal digits are computed on fuel, the number
-- itself, which is enough since halving, or dividing by ten, makes it smaller. All other functions
-- are recursive in a list or in the tree of a handler.
--
-- Not modelled: the latency in the line of the request log, a status code outside 100 to 999 (on
-- which net/http panics), the status that net/http itself sends where a handler panics, the texts
-- of the help, a run of the program on Windows (whose file checks, Command/WindowsFilePerms.antt of
-- fsperm_windows.go, check nothing), the format of what slog writes, what the demo client prints of
-- its progress, and the copies of secrets that the Go runtime may keep.
pub mod Base
pub mod Signing
pub mod Obs
pub mod Server
pub mod Command
pub mod Demo
pub mod Examples
