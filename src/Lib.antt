-- ===== src/Lib.antt =====
-- hiddify-core: the core that runs a sing-box instance for the Hiddify apps, and the bridge by which
-- it talks to a Dart program.
--
-- The parts. A client, over gRPC or from a Dart program, asks the core service (v2/custom.go) to start
-- from a profile. The service parses the profile, has the configuration builder (config/) turn it and
-- the user's options into a full sing-box configuration, runs an instance of sing-box on that, and
-- tells its listeners, and through the bridge (bridge/) the Dart side, of each change of its state. The
-- tunnel service (v2/tunnel_service.go) is a second process that runs the same core service from a
-- configuration of its own.
--
-- Which file models which part.
-- - Prelude and its children: shared names, tests, lists, integers, text.
-- - Dart/CType, Dart/Header and its children: the declarations of bridge/include/dart_api.h, up to its
--   section on scopes, and of bridge/include/dart_native_api.h, as values: a C type is a tree, a
--   prototype is a name with a function type. Dart/Symbols: the tables of
--   bridge/include/dart_api_dl.h. Dart/Abi: the tables against the prototypes.
-- - Dart/Loader: bridge/include/dart_api_dl.c and bridge/bridge.go. The variables X_DL are a function
--   from names X to pointers; the table that the VM hands over is a list of entries; undefined
--   behaviour and Go panics are outcomes. The VM's functions are a parameter.
-- - Core/State, Core/Status, Core/Starting, Core/Handlers: the core service. The package variables are
--   the record Service, with a trace of all calls that act on the world outside; what those calls
--   answer is the record Calls, a parameter, and may depend on the trace. A handler maps a service to
--   the pair that the Go function returns and the service that it leaves; a panic is an exit of its
--   own. StartService is cut into its stages, one function each. Core/Invariant, Core/Requests,
--   Core/Sticking: their proofs. Core/Tunnel: the tunnel service.
-- - Core/Profiles: Parse, ChangeConfigOptions and GenerateConfig of v2/custom.go; what the parser and
--   the builder answer is a parameter here. Core/Responding: when a Start answers at all.
-- - Config/Text: the functions of Go's strings and strconv that config/ uses. Config/Rules:
--   config/rules.go. Config/Options: config/option.go and the structs of config/warp_account.go.
--   Config/Tags, Config/Routing, Config/Dns, Config/Outbounds, Config/Collect, Config/Inbounds,
--   Config/Build: config/config.go, with setRoutingOptions and setOutbounds cut into their parts, up
--   to BuildConfig. A build maps the package variables that it reads or writes (BuildState) to an
--   outcome, done, failed or crashed, and the variables that it leaves. url.Parse, net.ParseIP,
--   net.LookupHost, strings.ToLower, sing-box's IsValid and the order of Go's maps are parameters.
-- - Config/Sing: of sing-box's options the fields that the code reads or sets, and JSON values.
--   Config/Patch: config/outbound.go, on the object that is an outbound's JSON. Config/Warp:
--   config/warp.go with CreateIdentityOnly of pkg/warp/account.go, the ports of pkg/warp/endpoint.go
--   and the private keys of pkg/warp/key.go. Config/Warp/Account: the rest of pkg/warp/account.go, over
--   a folder that may hold an identity file. Config/Parser: config/parser.go. Their outside, which is
--   the conversions of sing-box and ray2sing, JSON, base64, the service of Cloudflare, the errors of
--   the file system and what is drawn at random, is a record of functions each. What patches write
--   through pointers into the profile is left out, since the profile is not read again.
-- - Address: RandomIPFromPrefix of pkg/iputils/iputils.go, over addresses that are numbers.
--   Address/Endpoint: the prefixes and random endpoints of pkg/warp/endpoint.go.
-- - Config/Commander: config/admin_service_commander.go and config/admin_service_cmd_runner.go. What is
--   done outside is a log, on which each answer may depend.
-- - Standalone: v2/standalone.go. Standalone itself reads the content and its refresh interval,
--   Standalone/Building the options, and composes Config/Parser with Config/Build. Standalone/Following
--   is RunStandalone with the loop of updateConfigInterval: each round is a Visit, what is outside
--   during it, and the result is the sequence of waits and of calls of the core. The loop has no end in
--   the code; here it ends with the list of its visits, of any length.
--   In which order the goroutines of one refresh then run is left out.
-- - Streams: the five streams of v2/commands.go, v2/coreinfo.go and v2/logproto.go, over the signals
--   that their selects meet. What they do with the observers' subscriptions and the command clients is
--   left out.
-- - WireGuard: readWireGuardConfig of cmd/cmd_warp.go, over the lines of a file.
-- Requests are handled one after another: the Go code takes no lock, and two handlers that run at the
-- same time are not modelled. Where the Flutter bridge is on, each send is taken to return: either
-- the build has no cgo, and a send does nothing, or the program that hosts the core has initialised the
-- Dart API. With cgo and without that, the first change of status calls through a null pointer and ends
-- the process, at that effect of the trace. Log lines are left out, as is the time that a delay takes. No
-- code of the model runs on fuel: all loops are recursions over lists. The printing of a number that the
-- intervals are checked against (Config/Text/Decimal) is given one more step than the number, which is
-- more than it has digits.
--
-- Not modelled: the HTTP and TLS client of the Cloudflare service in pkg/warp, the calls that pass a
-- request on to libbox's command client, the command line, the mobile entry points and the C library
-- of custom/custom.go with utils/config.go, Setup of v2/service.go, certificates and build tools, which are calls of libraries and input and output. Of the Dart headers what the
-- program does not bind is left out.
pub mod Prelude
pub mod Dart
pub mod Core
pub mod Config
pub mod Address
pub mod Standalone
pub mod Streams
pub mod WireGuard
