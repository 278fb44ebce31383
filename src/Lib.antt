-- ===== src/Lib.antt =====
-- Voxhammer: a model of the engine's own logic, and the theorems that make it correct.
--
-- The engine keeps a sparse world of voxel chunks that the game carves, stamps and bakes for the
-- renderer (engine/voxel), and a console of typed variables and commands through which every
-- setting is read and written (engine/cvar). An importer reads .vox files into a world. A server
-- (engine/console) lets web clients and scripts in by password; what they send is queued and run on
-- the main thread against the console. The renderer (engine/render) keeps a copy of the voxels for its
-- shaders, with a mark for each brick of them that is not empty, and the physics world
-- (engine/physics) keeps bodies that are used again. All of these meet in game/main.cpp, whose console
-- commands carve, place and clear voxels and push each change to the renderer.
--
-- Base holds what the components share: Boolean tests, lists, texts as lists of bytes, integers on
-- the native natural numbers, counted loops, and ordered association lists.
--
-- Voxel models engine/voxel/VoxelWorld.h and VoxelWorld.cpp.
--   Voxel.Coords: FloorDiv, WorldToChunk, ChunkLocal. Voxel.Chunk: Chunk with Get, Set and Empty.
--   Voxel.World: the chunk map, an association list in place of the hash map, with GetVoxel and
--   SetVoxel, which evicts a chunk that has become empty. Voxel.World.Carve: CarveSphere.
--   Voxel.World.Bake: BakeFlatGrid. Voxel.Palette: the palette with its registered colors.
--   Voxel.Bounds: Bounds. Voxel.Stamp: StampVox, where the source is another chunk map and palette.
--   Voxel.Raycast: RaycastSolid, over a parameter for float; its loop has the rounds of the code.
--   Coordinates are unbounded integers: the code's `int` does not overflow inside the grid of 128
--   voxels to a side that it bakes and carves. A material is a natural number, 0 for empty.
--
-- Console models engine/cvar/Console.h and Console.cpp.
--   Console.Registry: CVar, Command and the registry. Console.Tokens: TokenizeLine, whose rounds run
--   on fuel; each takes a character, so one more than the length of the line is enough.
--   Console.Numbers: std::from_chars and std::to_string for int. Console.Setting: ApplySet.
--   Console.Execute: Execute and ExecuteScript. Console.Files: LoadCvarsToml and SaveCvarsToml over
--   a parameter for toml++ and the disk, with the documented laws.
--   The maps are association lists in the order of their keys, as std::map is. Floating point is a
--   parameter, Console.Floats, with the documented laws of comparison, cast, parsing and printing. A
--   callback of a cvar is recorded as a call; it changes nothing else. The callback of a command is
--   a parameter, a function of the console and the arguments.
--
-- Keys models engine/platform/Keybindings.h and Keybindings.cpp.
--   Keys.Modifiers: ParseMods and ModNames. Keys.Target: TargetToConsoleLine. Keys.Bindings: Set,
--   Remove, Dispatch and the defaults. Keys.Files: Load, Save, the hot reload and the operations in
--   any order. toml++ and the file system are a parameter, Keys.Files.Host, with the documented laws:
--   a node is read back as it was made, and a printed document is parsed as its table.
--   A key that fires yields a console line, the input of Execute.
--
-- Import models engine/voxel/VoxImport.h and VoxImport.cpp.
--   Import.Reader: Reader, on a list of bytes. Import.Scene: VoxScene and FillDefaultPalette.
--   Import.Material: the MATL chunk and the emission bytes, over a parameter for floats.
--   Import.Chunks: the other chunks and the walk over them. Import.Load: ParseVox and what calls it.
--   The walk runs on fuel, one more than the number of bytes; each round takes 12 bytes or more.
--
-- Server models engine/console/ConsoleServer.h, ConsoleServer.cpp and Password.cpp, and the queue of
-- engine/cvar/Console.cpp.
--   Server.Base64: Base64Decode. Server.Sessions: cookies, OriginAllowed, SessionValid, RandomToken
--   and ListSessions. Server.Login: HandleLogin as one step; Server.Login.Sections: its two parts,
--   with parts of other requests between them. Server.Clients: WsConnect, WsReady, WsClose, SendWs
--   and BroadcastEvent. Server.Clients.Admission: logins, upgrades and closed connections in any
--   order. Server.Messages: HandleMessage. Server.Line: LineClientLoop. Server.Queue: WsData,
--   QueueTask and Drain. Server.Lifecycle: Start, Stop, the TCP listener, RotateCert and HttpHandler.
--   Server.Hashing: the hash without libsodium.
--   A time is a number of nanoseconds, given to each operation. nlohmann's JSON library, civetweb's
--   query parser, the password check, the random bytes, the sockets and the certificate are
--   parameters; an exception of the JSON library is a value, and ends the drain of the queue. The
--   threads of the server meet in the mutexes of the code, so a step is a whole locked section, or a
--   whole login, except in Server.Login.Sections; the reads of a socket and the answers of the main
--   thread are lists of what they give.
--
-- Script models engine/script/ScriptHost.cpp: what Lua can call of the console, Init, Shutdown and
-- Eval with the stack of the Lua state. LuaJIT is a parameter, Script.Lua.
--
-- Render models the part of engine/render/Renderer.cpp that prepares what the shaders read.
--   Render: the buffers of Init, SetVoxels, BuildBrickOccupancy and the switches. Render.Edit:
--   EditVoxels. Render.Current and Render.Runs: the marks of the bricks after any calls. The side of
--   the grid is an argument, so that a run on a small grid can be evaluated; the game has 128. The
--   region that EditVoxels reads has an entry for each cell of the clamped box, as its callers give.
--
-- Physics models the build with PhysX of engine/physics/PhysicsWorld.h and PhysicsWorld.cpp.
--   Physics.Simulation: Init, Shutdown, Step, ActiveIslands and AddGroundPlane. Physics.Boxes:
--   AddDynamicBox, AddBox, CreatePooledActor and ReservePool. Physics.Pooling: AcquireBox, ReleaseBox,
--   RemoveBody and ClearDynamics. Physics.Queries: what reads the bodies. PhysX is a parameter: a
--   state that its calls change and answer from, with no law assumed; so is float.
--
-- Game models, of game/main.cpp, the commands voxel.place, voxel.clear, voxel.break and voxel.explode
-- from the hit on, the handler of uploads and the switches set before a frame, in the build without
-- PhysX, where no debris is drawn over the voxels. Game.Runs: these in any order. Game.Keys: the key
-- specifications and the commands bind and unbind, and a key that is bound in one run and pressed in
-- the next. Game.Args: the command line.
--
-- Jobs models engine/jobs/JobScheduler.cpp: Init, Shutdown, ParallelFor and Run. enkiTS is a
-- parameter, Jobs.Enki: it runs slices that are not empty and cover each index once; one takes
-- effect after the other, in any order.
--
-- Not modelled: the shaders, the frame, windows and audio, which call libraries for most of what
-- they do; the chunk debris; logging and the bodies of HTTP answers; the making of
-- certificates.
pub mod Base
pub mod Console
pub mod Game
pub mod Import
pub mod Jobs
pub mod Keys
pub mod Physics
pub mod Render
pub mod Script
pub mod Server
pub mod Tests
pub mod Voxel
