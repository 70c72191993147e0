-- ===== src/Lib.antt =====
-- Verification of the C programs of this repository: small Linux kernel modules with their
-- applications (Linux-Programing-Porting) and programs for the Linux system interface
-- (Linux-Programing-N-System). Each program stands alone; what they share is the kernel, and a driver
-- and its application meet at `open`, `read`, `write` and `close`.
--
-- Parts and their files:
-- - Common: lists, tests and integers over the native numbers, bits, C strings (bytes up to a NUL),
--   the decimal and hexadecimal text of a number (`%u`, `%x`), and typed lines.
-- - Kernel: the calls that a driver makes, as events with their answers, the newest first in a log;
--   `Outcome`, which tells a returned value from a write past the end of a buffer and from an access
--   through NULL. Kernel/Ledger: what a log leaves held (buffers, mappings, device numbers ...).
-- - Iomodule: Linux-Programing-Porting/02-device-file/hello.c. `State` is the two global structures
--   and what their pointers point to. Rw: `pcd_read` and `pcd_write`. Init: the module's start, with
--   a function for each label of its cleanup chain, and its end. The other modules are named for what
--   they prove. Session: rounds of open, read and close; Typed: a write by the application and a read
--   after it.
-- - App: Linux-Programing-Porting/02-device-file/app-memory-read-write.c, the menu over the device.
-- - LegacyLed: Linux-Programing-Porting/01-blinkled-legacy/led-module.c and led-module.h, over the bank
--   of Gpio.
-- - Gpio, ButtonLed: Linux-Programing-Porting/03-button-led/button-led.c and button-led.h. The GPIO
--   bank is the interface `Bank` with the behaviour that its manual documents (`Documented`);
--   Gpio/Sample is a bank of that kind. ButtonLed: the interrupt handler; Rw: the file operations;
--   Init: the module's start and end; Session: app-memory-read-write.c of the same directory, whose calls
--   run the driver, with Lamp and Shown about it; Interrupted: a push in the middle of a write.
-- - Sysfs: Linux-Programing-Porting/05-button-led-integer-DIY/gpio-sysfs.c, a directory in sysfs
--   through which a pin is exported, given a direction and set.
-- - GpioFiles: Linux-Programing-Porting/04-button-led-integer/gpio.c and gpio.h, pins through the files of
--   the kernel; Session: app-button-led.c, the application over them.
-- - ButtonGpio: Linux-Programing-Porting/04-button-led-integer/button-led.c, over the kernel's pins, which are
--   the parameter `Pins`.
-- - Students: Linux-Programing-N-System/5-Thread/5.2-Thread-management/main.c. The work of each
--   thread on the shared record and the file; Records and Storage: the fields through the file;
--   Threads: the interleavings of the three threads, with Turns and Order about them.
-- - Chat: Linux-Programing-N-System/7-Socket/7.2-Internet-Datagram and 7.2-Internet-Stream, a server and
--   a client each. Datagram and Stream: one round of `chat_func` of each side, and `rounds`, its loop.
--   Mains: `main` up to the first chat; Serving: the stream server's loop over its clients; Lives and
--   StreamLives: the programs from start to end. Lines: what a typed line becomes; Talk: two sides over a link;
--   StreamBounds: the receive buffer.
-- - Pipes: Linux-Programing-N-System/8-Pipeline_FIFO. Pipeline: 8.1-Pipeline, the two processes as a step
--   relation over a pipe, with Queue, a queue of messages, and Refines, how it stands for one (Records: the bytes in the pipe;
--   Shown: what the child has shown); Fifo:
--   8.2-FIFO, the same loops; Mains: `main` of both up to the loops, and the handlers of 8.2; Life: the
--   processes of 8.1 under SIGINT and SIGCHLD; Producer: 8.3-Producer_Consumer.
-- - Processes: Linux-Programing-N-System/4-Process-Management/4.2-child-process-management, five
--   processes that wait for one another and write to one file, as a step relation. Family,
--   FamilySteps and ChildrenFirst are about their order, Counting and Ending about the steps that they
--   take, Contents and Race about the file. Zombies: 4.3-safe-fork-zombie, the children and their signal.
-- - SharedMemory: Linux-Programing-N-System/9-shared-memory. Posix: the two writers and the reader of a
--   named object; Anonymous: a parent and its child; SystemV: writer and reader of a segment.
-- - OldIomodule: Linux-Programing-Porting/old-project/memory_read_write, an earlier form of the register
--   driver: Rw and Init as in Iomodule, Overrun about its pointers, Agreement about the two starts; Session:
--   app-memory-read-write.c over this driver, with FirstAccess about it.
-- - UnixSockets: Linux-Programing-N-System/7-Socket/7.1-Unix-Datagram and 7.1-Unix-Stream, a server and a
--   client each, with DatagramLaws and StreamLaws about them. Setup: `main` around the loops, and the
--   handlers; Loops and Lifecycle: how a server ends, and what its next start finds.
-- - PrrExercise: Linux-Programing-Porting/old-project/prr_exercise/prr_exercise.c, a platform driver.
-- - TempHello: Linux-Programing-Porting/02-device-file/temp-hello.c, a module that only registers.
-- - HumanThread: Linux-Programing-N-System/5-Thread/5.1-Thread/main.c, two threads and `main` as a step
--   relation; Printing, Compares and Safety: what they can print, Silence: what may be lost, or read when the record
--   is gone.
-- - WaitChild: Linux-Programing-N-System/4-Process-Management/4.1-waitpid/main.c, a parent and its child.
-- - FileInfo: Linux-Programing-N-System/2-linux-file-system/file-infor/main.c, what is printed of a file.
--
-- The modules named Examples hold a concrete run for each result that has conditions.
--
-- Conventions. A machine word has 32 bits, as on the boards that the code names, and its wrap-around
-- is written out. Pointers are numbers, 0 is NULL. What the kernel, the hardware and the user answer
-- is an argument of the function that asks, so a theorem speaks of all answers. A string is a list of
-- bytes. A number's text is made with fuel: 10 digits for decimal and 8 for hexadecimal, which is
-- enough for 32 bits (`value-format_u32`). What a program prints for the log only is left out, except
-- where a theorem is about it.
--
-- Assumptions. In Students the file can be opened, `write` to it writes all bytes and `read` gives
-- what is there up to the size asked for; what a thread does under the mutex is one step. `kstrtoul`
-- is a parameter, as are `sscanf`, `strtoul`, `toupper`, the macros on a file's mode and the kernel's
-- pins where they are used. The functions of a driver are not interrupted by one another, except in
-- ButtonLed/Interrupted. Chat's rounds are as many as there are answers, so its loops need no fuel. In
-- Pipes the pipe or FIFO hands on the bytes in their order (`Documented`), and opening it loses none.
-- In Processes `fork`, `open` and the calls on the file succeed. In SharedMemory the objects and
-- segments of the kernel are parameters; where a theorem says that no call fails, this is its
-- hypothesis `Working`. In UnixSockets the name of a socket in the file system is a parameter
-- (`SocketFiles`). A thread of HumanThread compares its ID in one step. In OldIomodule what is printed
-- from the user's buffer to the log is left out.
--
-- Not modelled: the modules and examples that only print a fixed text, and the build outputs.
pub mod Common
pub mod Kernel
pub mod Iomodule
pub mod App
pub mod Gpio
pub mod ButtonLed
pub mod Sysfs
pub mod GpioFiles
pub mod ButtonGpio
pub mod Students
pub mod Chat
pub mod Pipes
pub mod Processes
pub mod SharedMemory
pub mod OldIomodule
pub mod UnixSockets
pub mod PrrExercise
pub mod LegacyLed
pub mod TempHello
pub mod FileInfo
pub mod HumanThread
pub mod WaitChild
