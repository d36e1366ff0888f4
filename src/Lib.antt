-- ===== src/Lib.antt =====
-- Node.qml: the JavaScript runtime of Node for QML, a C++ library over Qt and its engine QV4.
--
-- The parts of the program and the files that model them:
--   src/nodeqml/util/qarraydataslice.h, a counted reference to a part of a shared byte array
--     (clearData, setData, the constructors, the destructor, operator=): Memory, Slice.
--   src/nodeqml/types/buffer.cpp and buffer.h, the class Buffer over such slices. Allocation and
--     access by index (allocateData, getIndexed, putIndexed): Buffer, Buffer/Alloc, Buffer/Store,
--     Buffer/Index. Encodings (parseEncoding, byteLength, decodeString): Buffer/Encoding. The
--     constructor (construct, fromString): Buffer/Construct. The methods compare and equals:
--     Buffer/Compare; copy: Buffer/Copy; fill: Buffer/Fill; slice: Buffer/Part; write: Buffer/Text;
--     toString, toJSON and inspect: Buffer/Show; concat: Buffer/Concat; the templates
--     method_readInteger, method_writeInteger and their kin for floating point: Buffer/Number; the
--     names under which a script finds them (BufferPrototype::init): Buffer/Methods. Buffer/Alive
--     takes all of this together: a program's calls and the ends of Buffers, in any order, as steps
--     on the heap and the slices that are alive.
--   src/nodeqml/engine.cpp and engine_p.h, the class EnginePrivate, which keeps the callbacks of
--     timers and the module cache (setTimeout, clearTimeout, setInterval, clearInterval, nextTick,
--     timerEvent, customEvent, doneCheck, exceptionCheck): Engine, Engine/Events; the native modules
--     and the engines that there are (registerModules, get): Engine/Registry. Engine/Pending sees
--     the callbacks as one map of timers.
--   the class Engine of engine.cpp and engine.h, through which a program embeds all this, and
--     src/imports/nodeqml/nodeqml_plugin.cpp, which makes one for QML: Embedding.
--   tools/nodeqml/main.cpp, the command line tool: it makes an Engine, requires a script, and
--     delivers events until the first `quit`: Tool.
--   src/nodeqml/moduleobject.cpp and moduleobject.h, the class ModuleObject (resolveModule, load,
--     compile, require): Module, Module/Load, Module/Require.
--   src/nodeqml/globalextensions.cpp, the functions of the global object: Globals.
--   src/nodeqml/modules/path.cpp, the module `path` (join, resolve, basename and the rest): Path.
--   src/nodeqml/modules/util.cpp, the module `util` (inspect, format, log, the tests of types): Util,
--     Util/Format, and inherits, Util/Inherits; Util/Filled describes the result of format by
--     recursion on its text.
--   src/nodeqml/modules/console.cpp, the object `console`, with the labels of time: Console.
--   src/nodeqml/modules/filesystem.cpp, the module `fs`: FileSystem; process.cpp, the object
--     `process` with its environment: Process; os.cpp, the module `os`: Os. The calls of the system
--     that they share are in System.
--   src/nodeqml/types/errnoexception.cpp, with throwErrnoException of engine.cpp: Errno.
-- The names under which scripts find the members of these are tables in the files Names.
-- Prelude has what the parts share, Double the observations of a `double`, Host what the program
-- calls and does not implement, Tests concrete values and the theorems applied to them.
--
-- How they interact: a Buffer holds one slice and reaches bytes only through it; the slices of all
-- Buffers live in one heap of counted arrays. A module runs in the state of the engine, asks its
-- cache, and ends with its exception check; a timer event and a `require` from outside end with its
-- check whether anything is left to run. The tool ends at the first `quit` of its engine. A name
-- that the engine registered as a native module is never looked for among files. The console prints
-- what format of `util` gives; fs and os throw an errno exception where a system call fails.
--
-- The state. Code on Buffers is a function from a Heap to an Outcome: it returns, throws an error
-- with the heap as it was left, faults, or hangs. A fault is an access that C++ leaves undefined:
-- of bytes outside an allocation, of a freed array, or through a null pointer. Code of the engine
-- is a function on its State; the calls of Qt that only have an effect there (startTimer,
-- killTimer, postEvent, quit) are entries of a trace. Functions of scripts and the delivery of
-- other events can call the engine again: they are parameters, functions on the same State, of
-- which KeepsSteps (Engine/Fires) and OnlyCalls (Module/Scripted) say that they change it by its
-- operations alone. The functions of fs, process and os run in a world, which the system calls
-- change, and with the exception that is pending; the console has its marks and the lines that it
-- wrote.
--
-- Bounds and fuel. `int` is 32 bits and wraps where the code adds two of them, size_t is 64 bits,
-- and a conversion of a `double` that C++ leaves undefined has any value. The fuel of the loop of
-- `fill` is the length of the range: each turn doubles what is filled. The fuel of `require` bounds
-- how deep modules require each other; Module/Ranked is about how much of it is enough.
--
-- What is a parameter. QV4 and its conversions (V4), QString and QByteArray (Text), the byte order
-- functions of Qt with what their documentation says (ByteOrder), the floating point types (Floats),
-- the success of allocations and the bytes of fresh memory (Machine), files, JSON and paths (Files,
-- Paths), the running of scripts (Scripts), the events and functions that wait (Loop). A reference
-- count that reaches 0 frees the array, as in QtPrivate::RefCount; assertions are off, as in a
-- release build. Further parameters are the system calls and what else asks the machine, as
-- functions on a world (System, Kernel), the matches of the regular expression of format, with what
-- the documentation of globalMatch says of them (Regex), the cast of a value to an object
-- (Objects), and objects with their properties and prototypes (ObjectStore).
--
-- What is not modelled: the rest of the work with objects of QV4 (arities and attributes of
-- properties) and its garbage collector; dns.cpp, which is commented out; the scripts below
-- src/nodeqml/js; the registration of types with QML; QCommandLineParser, which is Qt's; and the
-- tests, which are empty.

pub mod Prelude
pub mod Memory
pub mod Slice
pub mod Double
pub mod Host
pub mod Buffer
pub mod Engine
pub mod Embedding
pub mod Tool
pub mod Module
pub mod Path
pub mod Util
pub mod FileSystem
pub mod Console
pub mod Process
pub mod Os
pub mod Globals
pub mod System
pub mod Errno
mod Tests
